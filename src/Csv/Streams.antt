-- ===== src/Csv/Streams.antt =====
-- Streams of chunks of bytes (`BoxStream<BytesMut>`), as the list of the items that arrive, and
-- dbcrossbarlib/src/tokio_glue.rs: `try_forward_to_sender`. A receiver reads to the end, so that
-- sending does not fail.
use dbcrossbar.Base.{
  ◌≡◌, refl, Bool, true, false, Option, none, some, Text, List, [], ◌∷◌, ◌++◌, Result, ok, err,
  append_assoc, ap, sym,
}

-- The errors that the code raises on a stream, and any other with its message.
pub data Error : Type 0 where
  foreign : Text → Error
  quoted_headers end_of_headers : Error

abbrev pub Bytes : Type 0
Bytes = List (Result Error Text)

-- What a reader collects: the bytes before the first error, and that error.
abbrev pub Collected : Type 0
Collected = Text × Option Error

abbrev pub prepend : Text → Collected → Collected
prepend s (t, end) = (s ++ t, end)

unfoldable pub collect : Bytes → Collected
collect [] = ([], none)
collect (ok bytes ∷ items) = prepend bytes (collect items)
collect (err e ∷ items) = ([], some e)

-- What is sent on, and whether all of it was: an error is sent, and is the last item.
unfoldable pub try_forward_to_sender : Bytes → Bytes × Bool
try_forward_to_sender [] = ([], true)
try_forward_to_sender (ok bytes ∷ items) =
    let (sent, all_sent) = try_forward_to_sender items in (ok bytes ∷ sent, all_sent)
try_forward_to_sender (err e ∷ items) = (err e ∷ [], false)

abbrev pub is_clean : Option Error → Bool
is_clean none = true
is_clean (some e) = false

unfoldable pub collect-try_forward : (s : Bytes) → collect (try_forward_to_sender s).0 ≡ collect s
unfolding collect try_forward_to_sender
collect-try_forward [] = refl
collect-try_forward (ok bytes ∷ items) = ap (prepend bytes) (collect-try_forward items)
collect-try_forward (err e ∷ items) = refl

pub try_forward-is_clean : (s : Bytes) → (try_forward_to_sender s).1 ≡ is_clean (collect s).1
unfolding collect try_forward_to_sender
try_forward-is_clean [] = refl
try_forward-is_clean (ok bytes ∷ items) = try_forward-is_clean items
try_forward-is_clean (err e ∷ items) = refl

-- One reading after another: the second counts only if the first had no error.
abbrev pub then_collect : Collected → Collected → Collected
then_collect (s, none) c = prepend s c
then_collect (s, some e) c = (s, some e)

pub then_collect-prepend :
    (s : Text) (c d : Collected) → then_collect (prepend s c) d ≡ prepend s (then_collect c d)
then_collect-prepend s (t, none) (u, end) = ap (λ x. (x, end)) (append_assoc s t u)
then_collect-prepend s (t, some e) d = refl

unfoldable pub collect-append :
    (s t : Bytes) → collect (s ++ t) ≡ then_collect (collect s) (collect t)
unfolding collect
collect-append [] t = refl
collect-append (ok bytes ∷ s) t =
    rw (collect-append s t) (sym (then_collect-prepend bytes (collect s) (collect t)))
collect-append (err e ∷ s) t = refl
