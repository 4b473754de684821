-- ===== src/Fills/ExecId/Laws.antt =====
-- Execution ids that carry a revision.
use ngv_trader.Prelude.{
  ℕ, ◌≡◌, refl, ap, ◌∙◌, arith, false, none, some, [], ◌∷◌, ◌++◌, Text, All, ◌==◌,
}
use ngv_trader.Prelude.Int.{pos}
use ngv_trader.Order.Reference.{to_text, parse_int}
use ngv_trader.Order.Reference.Laws.{padded, padded-All, parse_int-padded, to_text-All}
use ngv_trader.Fills.ExecId.{split_last_dot, revision_of, parse_exec_id}

abbrev IsPlain : ℕ → Type 0
IsPlain c = (c == b'.') ≡ false

split_last_dot_plain : (s : Text) → All IsPlain s → split_last_dot s ≡ none
unfolding split_last_dot
split_last_dot_plain [] h = refl
split_last_dot_plain (c ∷ s) h = rw (split_last_dot_plain s h.1, h.0) refl

split_last_dot-append :
    (base s : Text) → All IsPlain s → split_last_dot (base ++ b'.' ∷ s) ≡ some (base, s)
unfolding split_last_dot
split_last_dot-append [] s h = rw (split_last_dot_plain s h) refl
split_last_dot-append (c ∷ base) s h = rw (split_last_dot-append base s h) refl

parse_exec_id_split :
    (s base suffix : Text)
    → split_last_dot s ≡ some (base, suffix)
    → parse_exec_id s ≡ (base ++ b'.' ∷ [], revision_of (parse_int suffix))
unfolding parse_exec_id
parse_exec_id_split s base suffix h = rw (parse_exec_id, h) refl

-- An execution id is read back as its base and its revision, whatever dots the base has and however
-- many zeros stand in front of the revision's digits.
pub parse_exec_id-append :
    (base : Text) (zeros revision : ℕ)
    → parse_exec_id (base ++ b'.' ∷ padded zeros (to_text revision))
      ≡ (base ++ b'.' ∷ [], pos revision)
parse_exec_id-append base zeros revision =
    let suffix = padded zeros (to_text revision) in
    let plain : All IsPlain suffix =
      padded-All IsPlain refl zeros (to_text revision)
        (to_text-All IsPlain (λ d h. ground arith) revision) in
    parse_exec_id_split (base ++ b'.' ∷ suffix) base suffix
      (split_last_dot-append base suffix plain)
    ∙ ap (λ n. (base ++ b'.' ∷ [], revision_of n)) (parse_int-padded zeros revision)
