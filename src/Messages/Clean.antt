-- ===== src/Messages/Clean.antt =====
-- The rest of src/messages/recv.ts that works on keys and bytes: `cleanMessage`, `getChatId` and the
-- padding, which src/messages/send-relay.ts puts there.
use nexawhats.Common.{
  ℕ, zero, suc, ◌+◌, ◌-◌, ◌%◌, ◌≤◌, ltb, ◌≡◌, refl, ap, ◌∙◌, subst, arith, if◌then◌else◌, Bool,
  true, false, not, ◌&&◌, ◌||◌, Option, none, some, List, [], ◌∷◌, ◌++◌, length, length-append,
  take, take-append,
}
use nexawhats.Common.Text.{Str, cut}
use nexawhats.Jid.{
  FullJid, jid_encode, jid_decode, jid_decode?, jid_normalized_user, are_jids_same_user,
  is_hosted_pn_user, is_hosted_lid_user, is_jid_broadcast, is_jid_status_broadcast, s_whatsapp_net,
  lid,
}
use nexawhats.Binary.Helpers.{or_else}
use nexawhats.Messages.Receive.{present}

-- A key inside a message.
pub record ReactionKey : Type 0 where
  pub from_me : Bool
  pub remote_jid : Option Str
  pub participant : Option Str

abbrev user_or_empty : Option FullJid → Str
user_or_empty none = []
user_or_empty (some d) = d.user

-- What becomes of `remoteJid` and of `participant`.
unfoldable pub clean_jid : Option Str → Option Str
clean_jid none = none
clean_jid (some jid) =
    if is_hosted_pn_user (some jid) || is_hosted_lid_user (some jid)
    then some (
        jid_encode (user_or_empty (jid_decode jid))
          (if is_hosted_pn_user (some jid) then s_whatsapp_net else lid) none none)
    else if present (some jid)
    then some (jid_normalized_user jid)
    else some jid

-- `normaliseKey`, for a message with the key `outer`; a missing `meLid` is the empty text.
abbrev pub empty_if_none : Option Str → Option Str
empty_if_none none = some []
empty_if_none (some s) = some s

unfoldable pub normalise_key : Str → Option Str → ReactionKey → ReactionKey → ReactionKey
normalise_key me_id me_lid outer key =
    let by = or_else key.participant key.remote_jid in
    if outer.from_me then key else record {
      from_me =
          if not key.from_me
          then are_jids_same_user by (some me_id) || are_jids_same_user by (empty_if_none me_lid)
          else false;
      remote_jid = outer.remote_jid;
      participant = or_else key.participant outer.participant;
    }

-- `cleanMessage`: the key, and the keys of a reaction and of a poll update, where there are any.
pub record Keys : Type 0 where
  pub key : ReactionKey
  pub reaction : Option ReactionKey
  pub poll_update : Option ReactionKey

abbrev normalise_if_there : Str → Option Str → ReactionKey → Option ReactionKey → Option ReactionKey
normalise_if_there me_id me_lid outer none = none
normalise_if_there me_id me_lid outer (some k) = some (normalise_key me_id me_lid outer k)

unfoldable pub clean_message : Str → Option Str → Keys → Keys
clean_message me_id me_lid m =
    let key = record m.key {
      remote_jid = clean_jid m.key.remote_jid;
      participant = clean_jid m.key.participant;
    } in
    record {
      key = key;
      reaction = normalise_if_there me_id me_lid key m.reaction;
      poll_update = normalise_if_there me_id me_lid key m.poll_update;
    }

unfoldable pub get_chat_id : ReactionKey → Option Str
get_chat_id key =
    if present key.remote_jid
      && is_jid_broadcast key.remote_jid
      && not (is_jid_status_broadcast key.remote_jid)
      && not key.from_me
    then key.participant
    else key.remote_jid

-- `Buffer.alloc(n, n)`
abbrev pub fill : ℕ → ℕ → List ℕ
fill zero b = []
fill (suc n) b = b ∷ fill n b

-- `writeRandomPadMax16`, with the random byte.
unfoldable pub write_random_pad_max16 : ℕ → List ℕ → List ℕ
write_random_pad_max16 random msg = msg ++ fill (random % 16 + 1) (random % 16 + 1)

abbrev pub last_or : ℕ → List ℕ → ℕ
last_or d [] = d
last_or d (b ∷ bs) = last_or b bs

-- `unpadRandomMax16`; `none` when it throws.
unfoldable pub unpad_random_max16 : List ℕ → Option (List ℕ)
unpad_random_max16 [] = none
unpad_random_max16 (b ∷ bs) =
    let t = b ∷ bs in
    let r = last_or 0 t in if ltb (length t) r then none else some (take (length t - r) t)

last_or-append : (d b : ℕ) (bs : List ℕ) → last_or d (bs ++ (b ∷ [])) ≡ b
last_or-append d b [] = refl
last_or-append d b (c ∷ bs) = last_or-append c b bs

fill-end : (n b : ℕ) → fill (suc n) b ≡ fill n b ++ (b ∷ [])
fill-end zero b = refl
fill-end (suc n) b = ap (λ l. b ∷ l) (fill-end n b)

length-fill : (n b : ℕ) → length (fill n b) ≡ n
length-fill zero b = refl
length-fill (suc n) b = omega (arith, length-fill n b)

last_or-fill : (d n b : ℕ) (xs : List ℕ) → last_or d (xs ++ fill (suc n) b) ≡ b
last_or-fill d n b [] = ap (last_or d) (fill-end n b) ∙ last_or-append d b (fill n b)
last_or-fill d n b (x ∷ xs) = last_or-fill x n b xs

unpad_lem :
    (t : List ℕ) (r : ℕ) (msg : List ℕ)
    → last_or 0 t ≡ r
    → length t ≡ length msg + r
    → 1 ≤ r
    → take (length msg) t ≡ msg
    → unpad_random_max16 t ≡ some msg
unfolding unpad_random_max16
unpad_lem [] r msg e h k q = absurd (omega arith)
unpad_lem (b ∷ bs) r msg e h k q =
    let n : suc (length bs) - last_or b bs ≡ length msg = omega (arith, e, h) in
    ground (arith, e, h, n, q)

-- Taking the padding off gives back the message, whatever the random byte was.
unpad_random_max16-write_random_pad_max16 :
    (random : ℕ) (msg : List ℕ) → unpad_random_max16 (write_random_pad_max16 random msg) ≡ some msg
unfolding write_random_pad_max16
unpad_random_max16-write_random_pad_max16 random msg =
    let n = random % 16 in
    unpad_lem (msg ++ fill (n + 1) (n + 1)) (n + 1) msg (one_more n)
      (omega (arith, length-append msg (fill (n + 1) (n + 1)), length-fill (n + 1) (n + 1)))
      (omega arith) (take-append msg (fill (n + 1) (n + 1)))
  where
    one_more : (n : ℕ) → last_or 0 (msg ++ fill (n + 1) (n + 1)) ≡ n + 1
    one_more n =
        let e : suc n ≡ n + 1 = omega arith in
        subst (λ k. last_or 0 (msg ++ fill k k) ≡ k) e (last_or-fill 0 n (suc n) msg)

are_jids_same_user-none :
    (a b : Option Str) → jid_decode? a ≡ none → jid_decode? b ≡ none → are_jids_same_user a b ≡ true
unfolding are_jids_same_user
are_jids_same_user-none a b h k = rw (h, k, are_jids_same_user) refl

-- The key of a reaction or of a poll update in another's message, where it does not say that it is
-- ours and names no author with a user that can be decoded, is marked as ours when we have no LID.
normalise_key-undecodable :
    (me_id : Str) (outer key : ReactionKey)
    → outer.from_me ≡ false
    → key.from_me ≡ false
    → jid_decode? (or_else key.participant key.remote_jid) ≡ none
    → (normalise_key me_id none outer key).from_me ≡ true
unfolding normalise_key jid_decode cut
normalise_key-undecodable me_id outer key e h d =
    rw (e, h, normalise_key)
      (ap (λ b. are_jids_same_user (or_else key.participant key.remote_jid) (some me_id) || b) both
        ∙ always (are_jids_same_user (or_else key.participant key.remote_jid) (some me_id)))
  where
    always : (b : Bool) → (b || true) ≡ true
    always true = refl
    always false = refl

    both : are_jids_same_user (or_else key.participant key.remote_jid) (some []) ≡ true
    both = are_jids_same_user-none (or_else key.participant key.remote_jid) (some []) d refl
