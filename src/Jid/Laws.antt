-- ===== src/Jid/Laws.antt =====
-- What src/utils/jid.ts makes of an address: decoding after encoding, and the user of an address.
use nexawhats.Common.{
  ℕ, ◌<◌, ◌≡◌, refl, sym, ◌∙◌, ap, arith, ◌==◌, if◌then◌else◌, false, Option, none, some, [], ◌∷◌,
  ◌++◌, All, inl, inr, Bool-cases, append_assoc,
}
use nexawhats.Common.Text.{
  Str, has, has-append, cut, cut-append, first_part, first_part-append, second_part-append,
  first_part-none, second_part-none,
}
use nexawhats.Jid.{FullJid, jid_encode, jid_decode, domain_of, device_of, decode_parts}
use nexawhats.Jid.Numbers.{
  Number, num, nan, to_number, decimal, decimal-IsDigit, to_number-decimal, decimal_cons, IsDigit,
}

-- A user part that the format can carry: none of the three marks.
pub record IsUser (user : Str) : Type 0 where
  pub no_at : has b'@' user ≡ false
  pub no_colon : has b':' user ≡ false
  pub no_underscore : has b'_' user ≡ false

has_digits : (c : ℕ) (s : Str) → All IsDigit s → b'9' < c → has c s ≡ false
unfolding has
has_digits c [] h k = refl
has_digits c (d ∷ s) h k = ground (arith, has_digits c s)

pub decode_plain :
    (user server : Str)
    → IsUser user
    → jid_decode (user ++ (b'@' ∷ server))
      ≡ some (record {
        user = user;
        device = none;
        server = server;
        domain_type = domain_of server none;
      })
unfolding jid_decode
decode_plain user server u =
    rw
      (
        cut-append b'@' user server u.no_at,
        first_part-none b':' user u.no_colon,
        first_part-none b'_' user u.no_underscore,
        second_part-none b':' user u.no_colon,
        second_part-none b'_' user u.no_underscore,
      )
      refl

device_of-decimal : (n : ℕ) → device_of (some (decimal n)) ≡ some (num n)
device_of-decimal n =
    let (c, s, e) = decimal_cons n in
    ap (λ t. device_of (some t)) e ∙ ap some (ap to_number (sym e) ∙ to_number-decimal n)

has_device_part : (user : Str) (n : ℕ) → IsUser user → has b'@' (user ++ (b':' ∷ decimal n)) ≡ false
has_device_part user n u =
    has-append b'@' user _ u.no_at
      (has_digits_cons (has_digits b'@' (decimal n) (decimal-IsDigit n) (omega arith)))
  where
    has_digits_cons : has b'@' (decimal n) ≡ false → has b'@' (b':' ∷ decimal n) ≡ false
    has_digits_cons h = unfold has in h

pub decode_device :
    (user server : Str) (n : ℕ)
    → IsUser user
    → jid_decode (user ++ (b':' ∷ (decimal n ++ (b'@' ∷ server))))
      ≡ some (record {
        user = user;
        device = some (num n);
        server = server;
        domain_type = domain_of server none;
      })
unfolding jid_decode
decode_device user server n u = rw (← append_assoc user (b':' ∷ decimal n) (b'@' ∷ server)) (
    rw
      (
        cut-append b'@' (user ++ (b':' ∷ decimal n)) server (has_device_part user n u),
        first_part-append b':' user (decimal n) u.no_colon,
        second_part-append b':' user (decimal n) u.no_colon,
        first_part-none b'_' user u.no_underscore,
        second_part-none b'_' user u.no_underscore,
      )
      (rw
        (first_part-none b':' (decimal n)
          (has_digits b':' (decimal n) (decimal-IsDigit n) (omega arith)))
        (rw (device_of-decimal n) refl)))

-- What is left of a device: `0` and `NaN` are not written.
abbrev pub kept : Option Number → Option Number
kept none = none
kept (some nan) = none
kept (some (num n)) = if n == 0 then none else some (num n)

-- Decoding an encoded address gives its user, its server and its device, where the user has none
-- of the three marks and the address has no agent; a device that is 0 or NaN is dropped, and the
-- domain type is the server's.
pub jid_decode-jid_encode :
    (user server : Str) (device : Option Number)
    → IsUser user
    → jid_decode (jid_encode user server device none)
      ≡ some (record {
        user = user;
        device = kept device;
        server = server;
        domain_type = domain_of server none;
      })
unfolding jid_encode
jid_decode-jid_encode user server none u = decode_plain user server u
jid_decode-jid_encode user server (some nan) u = decode_plain user server u
jid_decode-jid_encode user server (some (num n)) u = elim (Bool-cases (n == 0)) [
  | inl e ↦ rw e (decode_plain user server u)
  | inr e ↦ rw e (decode_device user server n u)
]

has-first_part : (c d : ℕ) (s : Str) → has c s ≡ false → has c (first_part d s) ≡ false
unfolding has first_part
has-first_part c d [] h = h
has-first_part c d (x ∷ s) h = ground (arith, has-first_part c d s)

has-first_part_self : (c : ℕ) (s : Str) → has c (first_part c s) ≡ false
unfolding has first_part
has-first_part_self c [] = refl
has-first_part_self c (x ∷ s) = ground (arith, has-first_part_self c s)

abbrev LeftAvoids : ℕ → Option (Str × Str) → Type 0
LeftAvoids c none = Unit
LeftAvoids c (some (l, r)) = has c l ≡ false

cut-LeftAvoids : (c : ℕ) (s : Str) → LeftAvoids c (cut c s)
unfolding cut has
cut-LeftAvoids c [] = tt
cut-LeftAvoids c (x ∷ s) = elim (Bool-cases (x == c)) [
  | inl q ↦ rw q refl
  | inr q ↦ rw q (grow q (cut c s) (cut-LeftAvoids c s))
]
  where
    grow :
        (x == c) ≡ false
        → (o : Option (Str × Str)) → LeftAvoids c o
        → LeftAvoids c (elim o [ none ↦ none | some (l, r) ↦ some (x ∷ l, r) ])
    grow q none h = tt
    grow q (some (l, r)) h = rw q h

-- The user of a decoded address has none of the three marks.
pub jid_decode-IsUser : (jid : Str) (d : FullJid) → jid_decode jid ≡ some d → IsUser d.user
unfolding jid_decode
jid_decode-IsUser jid d e = go (cut b'@' jid) e (cut-LeftAvoids b'@' jid)
  where
    same :
        (l r : Str)
        → decode_parts (some (l, r)) ≡ some d
        → d.user ≡ first_part b'_' (first_part b':' l)
    same l r p = cc

    go : (o : Option (Str × Str)) → decode_parts o ≡ some d → LeftAvoids b'@' o → IsUser d.user
    go none p h = cc
    go (some (l, r)) p h = rw (same l r p) (record {
      no_at = has-first_part b'@' b'_' _ (has-first_part b'@' b':' l h);
      no_colon = has-first_part b':' b'_' _ (has-first_part_self b':' l);
      no_underscore = has-first_part_self b'_' (first_part b':' l);
    })
