-- ===== src/Binary/Termination/Jids.antt =====
-- The readers of addresses, which read strings in turn.
use nexawhats.Common.{ℕ, ◌≤◌, ◌<◌, arith, List, [], ◌∷◌, length}
use nexawhats.Common.Text.{Str}
use nexawhats.Binary.Decoder.{Reader, ◌>>=◌, read_byte, read_jid_pair, pair_result, read_ad_jid}
use nexawhats.Binary.Termination.Readers.{Within, done, failed, Within-bind}

-- A reader of strings that is right for inputs shorter than `n`.
abbrev pub ReadsBelow : ℕ → (ℕ → Reader Str) → Type 0
ReadsBelow n read = (tag k : ℕ) (bs : List ℕ) → k < n → length bs ≤ k → Within k (read tag bs)

pub read_jid_pair-Within :
    (n : ℕ) (read : ℕ → Reader Str) (bs : List ℕ)
    → ReadsBelow n read
    → length bs ≤ n
    → Within n (read_jid_pair read bs)
unfolding read_jid_pair read_byte
read_jid_pair-Within n read [] below h = failed
read_jid_pair-Within n read (b ∷ bs) below h =
    Within-bind n (length bs) (read b bs) _ (below b (length bs) bs (omega arith) (omega arith))
      λ i r e. second i r e
  where
    finish : (i j : Str) (s : List ℕ) → length s ≤ n → Within n (pair_result i j s)
    finish i [] s f = failed
    finish i (c ∷ cs) s f = done f

    second :
        (i : Str) (r : List ℕ)
        → length r ≤ length bs
        → Within n ((read_byte >>= λ u. read u >>= pair_result i) r)
    second i [] e = failed
    second i (u ∷ r) e =
        Within-bind n (length r) (read u r) _ (below u (length r) r (omega arith) (omega arith))
          λ j s f. finish i j s (omega arith)

pub read_ad_jid-Within :
    (n : ℕ) (read : ℕ → Reader Str) (bs : List ℕ)
    → ReadsBelow n read
    → length bs ≤ n
    → Within n (read_ad_jid read bs)
unfolding read_ad_jid read_byte
read_ad_jid-Within n read [] below h = failed
read_ad_jid-Within n read (a ∷ []) below h = failed
read_ad_jid-Within n read (a ∷ b ∷ []) below h = failed
read_ad_jid-Within n read (a ∷ b ∷ t ∷ bs) below h =
    Within-bind n (length bs) (read t bs) _ (below t (length bs) bs (omega arith) (omega arith))
      λ i r e. done (omega arith)
