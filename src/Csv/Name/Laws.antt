-- ===== src/Csv/Name/Laws.antt =====
-- Where the name of a stream stands in the path of its file.
use dbcrossbar.Base.{
  ◌≤◌, length, length-append, ℕ, ◌==◌, ==_iff, ◌≡◌, refl, sym, ap, ◌∙◌, arith, true, false, Text,
  [], ◌∷◌, ◌++◌, any, text_eq, text_eq→eq, strip_prefix, strip_prefix-some, strip_prefix-append,
  Result, ok, err, ok-injective, if-eq, Bool-cases, Option-cases, inl, inr, subst,
}
use dbcrossbar.Csv.Name.{
  NameError, slash, dot, has_slash, basename, before_dot, ends_with_slash, below, relative,
  basename_or_relative, strip_extension, csv_stream_name,
}

abbrev pub HasNoDot : Text → Type 0
HasNoDot s = any (λ c. c == dot) s ≡ false

-- Nothing, or a dot and what follows it.
abbrev pub IsExtension : Text → Type 0
IsExtension [] = Unit
IsExtension (c ∷ s) = c ≡ dot

-- A name, and an extension behind it.
abbrev pub IsStem : Text → Text → Type 0
IsStem name s = (extension : Text) × (name ++ extension ≡ s) × HasNoDot name × IsExtension extension

before_dot-IsStem : (s : Text) → IsStem (before_dot s) s
unfolding before_dot
before_dot-IsStem [] = ([], refl, refl, tt)
before_dot-IsStem (c ∷ s) = elim (Bool-cases (c == dot)) [
  | inl same ↦ rw same (c ∷ s, refl, refl, (==_iff c dot).0 same)
  | inr other ↦
      let (extension, whole, no_dot, is_extension) = before_dot-IsStem s in
      rw other (extension, ap (λ r. c ∷ r) whole, rw other no_dot, is_extension)
]

-- A directory: no text, or one that ends in a slash.
abbrev pub IsDirectory : Text → Type 0
IsDirectory [] = Unit
IsDirectory (c ∷ s) = ends_with_slash (c ∷ s) ≡ true

-- A directory, and a text without slashes behind it.
abbrev pub IsBasename : Text → Text → Type 0
IsBasename b s =
    (directory : Text) × (directory ++ b ≡ s) × IsDirectory directory × (has_slash b ≡ false)

IsDirectory-cons :
    (c : ℕ) (d b s : Text)
    → d ++ b ≡ s
    → has_slash s ≡ true
    → has_slash b ≡ false
    → IsDirectory d
    → IsDirectory (c ∷ d)
unfolding ends_with_slash
IsDirectory-cons c [] b s e some_slash no_slash h = cc
IsDirectory-cons c (x ∷ d) b s e some_slash no_slash h = h

basename-IsBasename : (s : Text) → IsBasename (basename s) s
unfolding basename ends_with_slash
basename-IsBasename [] = ([], refl, tt, refl)
basename-IsBasename (c ∷ s) = elim (Bool-cases (has_slash s)) [
  | inl more ↦
      let (d, whole, is_directory, no_slash) = basename-IsBasename s in
      rw more (
        c ∷ d,
        ap (λ r. c ∷ r) whole,
        IsDirectory-cons c d (basename s) s whole more no_slash is_directory,
        no_slash,
      )
  | inr last ↦ elim (Bool-cases (c == slash)) [
    | inl same ↦ rw last (rw same (c ∷ [], refl, same, last))
    | inr other ↦ rw last (rw other ([], refl, tt, rw other last))
  ]
]

-- The name of a stream, by the base path and the path of the file.
pub data IsNameOf (base_path name : Text) : Text → Type 0 where
  only_input :
      (b : Text) → IsBasename b base_path → IsStem name b → IsNameOf base_path name base_path
  in_directory :
      (rest : Text)
      → ends_with_slash base_path ≡ true
      → IsStem name rest
      → IsNameOf base_path name (base_path ++ rest)
  below_path :
      (rest : Text)
      → ends_with_slash base_path ≡ false
      → IsStem name rest
      → IsNameOf base_path name (base_path ++ slash ∷ rest)

strip_extension-eq-ok :
    (r : Result NameError Text) {name : Text}
    → strip_extension r ≡ ok name
    → (s : Text) × (r ≡ ok s) × IsStem name s
strip_extension-eq-ok (ok s) e = (s, refl, rw (← ok-injective e) (before_dot-IsStem s))
strip_extension-eq-ok (err x) e = cc

below-eq-ok : (t : Text) {s : Text} → below t ≡ ok s → t ≡ slash ∷ s
below-eq-ok [] e = cc
below-eq-ok (c ∷ t) e = elim (if-eq (c == slash) (ok t) _ e) [
  | inl (same, f) ↦ rw ((==_iff c slash).0 same) (rw (ok-injective f) refl)
  | inr (_, f) ↦ cc
]

relative-IsNameOf :
    (base_path file_path : Text) {name s : Text}
    → IsStem name s
    → relative base_path (strip_prefix base_path file_path) ≡ ok s
    → IsNameOf base_path name file_path
relative-IsNameOf base_path file_path {name} {s} stem e =
    elim (Option-cases (strip_prefix base_path file_path)) [
      | inl missing ↦ ground arith
      | inr (rest, q) ↦
          let path = strip_prefix-some base_path file_path q in
          elim (if-eq (ends_with_slash base_path) (ok rest) (below rest) (rw q at e)) [
            | inl (is_directory, f) ↦
                rw path (in_directory rest is_directory (rw (ok-injective f) stem))
            | inr (other, f) ↦ rw path (rw (below-eq-ok rest f) (below_path s other stem))
          ]
    ]

-- A name that a stream is given is the file's path without its directory, or without the base path
-- and the slash between, up to the first dot.
pub csv_stream_name-IsNameOf :
    (base_path file_path : Text) {name : Text}
    → csv_stream_name base_path file_path ≡ ok name
    → IsNameOf base_path name file_path
unfolding csv_stream_name
csv_stream_name-IsNameOf base_path file_path {name} e =
    let (s, p, stem) = strip_extension-eq-ok (basename_or_relative base_path file_path) e in
    elim (if-eq (text_eq file_path base_path) (ok (basename file_path)) _ p) [
      | inl (same, f) ↦
          let path = text_eq→eq file_path base_path same in
          rw path (
            only_input (basename base_path) (basename-IsBasename base_path)
              (subst (λ r. IsStem name r) (sym (ok-injective f) ∙ ap basename path) stem))
      | inr (_, f) ↦ relative-IsNameOf base_path file_path stem f
    ]

longer_text : (s t : Text) → 1 ≤ length t → text_eq (s ++ t) s ≡ false
longer_text s t h = elim (Bool-cases (text_eq (s ++ t) s)) [
  | inr other ↦ other
  | inl same ↦
      let lengths = ap length (text_eq→eq (s ++ t) s same) in
      let parts = length-append s t in absurd (omega arith)
]

before_dot-HasNoDot : (s t : Text) → HasNoDot s → before_dot (s ++ dot ∷ t) ≡ s
unfolding before_dot
before_dot-HasNoDot [] t h = refl
before_dot-HasNoDot (c ∷ s) t h = elim (Bool-cases (c == dot)) [
  | inl same ↦ ground arith
  | inr other ↦ rw other (ap (λ r. c ∷ r) (before_dot-HasNoDot s t (ground arith)))
]

-- Below a base path that ends in a slash, the name is what follows up to the first dot, also where
-- this dot is in the name of a directory: all files below such a directory have one name.
pub csv_stream_name-dot :
    (base_path stem rest : Text)
    → ends_with_slash base_path ≡ true
    → HasNoDot stem
    → csv_stream_name base_path (base_path ++ (stem ++ dot ∷ rest)) ≡ ok stem
unfolding csv_stream_name
csv_stream_name-dot base_path stem rest is_directory no_dot =
    let sizes = length-append stem (dot ∷ rest) in
    rw (longer_text base_path (stem ++ dot ∷ rest) (omega arith)) (
      rw (strip_prefix-append base_path (stem ++ dot ∷ rest))
        (rw is_directory (ap ok (before_dot-HasNoDot stem rest no_dot))))
