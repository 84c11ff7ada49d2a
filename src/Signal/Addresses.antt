-- ===== src/Signal/Addresses.antt =====
-- That the addresses of src/signal/libsignal.ts tell devices apart.
use nexawhats.Common.{
  ℕ, ◌<◌, ◌≡◌, ◌≢◌, refl, ap, sym, ◌∙◌, arith, if◌then◌else◌, Bool, true, false, not, ◌&&◌, Option,
  none, some, [], ◌∷◌, ◌++◌, All,
}
use nexawhats.Common.Text.{Str, str_eq, has, has-append, cut, cut-append, cut-none}
use nexawhats.Jid.Numbers.{
  Number, num, nan, IsDigit, decimal, decimal-IsDigit, to_number, to_number-decimal,
}
use nexawhats.Jid.{FullJid, jid_decode, hosted, hosted_lid}
use nexawhats.Jid.Laws.{IsUser, jid_decode-IsUser}
use nexawhats.Messages.Receive.{present}
use nexawhats.Signal.LidPairs.{number_text}
use nexawhats.Signal.Address.{
  ProtocolAddress, address_text, Addressed, address, refused, signal_user, device_or_zero,
  address_of, is_whatsapp, is_device_99, empty_user, unexpected_device_99,
  jid_to_signal_protocol_address,
}

has-digits : (c : ℕ) (s : Str) → All IsDigit s → c < b'0' → has c s ≡ false
unfolding has
has-digits c [] h k = refl
has-digits c (d ∷ s) (p, h) k = ground (arith, has-digits c s h k, p)

has-number_text : (n : Number) → has b'.' (number_text n) ≡ false
has-number_text nan = unfold has in refl
has-number_text (num n) = has-digits b'.' (decimal n) (decimal-IsDigit n) (omega arith)

to_number-nan : to_number (number_text nan) ≡ nan
unfolding to_number
to_number-nan = refl

number_text-injective : (m n : Number) → number_text m ≡ number_text n → m ≡ n
number_text-injective nan nan e = refl
number_text-injective nan (num n) e = sym to_number-nan ∙ ap to_number e ∙ to_number-decimal n
number_text-injective (num m) nan e = sym (to_number-decimal m) ∙ ap to_number e ∙ to_number-nan
number_text-injective (num m) (num n) e =
    sym (to_number-decimal m) ∙ ap to_number e ∙ to_number-decimal n

cut_at :
    (c : ℕ) (l r l' r' : Str)
    → has c l ≡ false
    → has c l' ≡ false
    → l ++ (c ∷ r) ≡ l' ++ (c ∷ r')
    → (l ≡ l') × (r ≡ r')
cut_at c l r l' r' h h' e =
    let q = sym (cut-append c l r h) ∙ ap (cut c) e ∙ cut-append c l' r' h' in
    (ap left_of q, ap right_of q)
  where
    left_of : Option (Str × Str) → Str
    left_of none = []
    left_of (some (a, b)) = a

    right_of : Option (Str × Str) → Str
    right_of none = []
    right_of (some (a, b)) = b

is_whatsapp_eq : (n : Number) → is_whatsapp n ≡ true → n ≡ num 0
is_whatsapp_eq nan h = cc
is_whatsapp_eq (num n) h = ap num (ground (arith, h))

cut-plain :
    (u v : Str) (n : Number)
    → has b'_' u ≡ false
    → has b'_' v ≡ false
    → u ≢ v ++ (b'_' ∷ number_text n)
cut-plain u v n h k e = cc (cut-none b'_' u h, ap (cut b'_') e, cut-append b'_' v (number_text n) k)

signal_user-injective :
    (d e : FullJid)
    → IsUser d.user
    → IsUser e.user
    → signal_user d ≡ signal_user e
    → (d.user ≡ e.user) × (d.domain_type ≡ e.domain_type)
signal_user-injective d e u v h =
    go (is_whatsapp d.domain_type) (is_whatsapp e.domain_type) refl refl h
  where
    go :
        (p q : Bool)
        → is_whatsapp d.domain_type ≡ p
        → is_whatsapp e.domain_type ≡ q
        → (if p then d.user else d.user ++ (b'_' ∷ number_text d.domain_type))
          ≡ (if q then e.user else e.user ++ (b'_' ∷ number_text e.domain_type))
        → (d.user ≡ e.user) × (d.domain_type ≡ e.domain_type)
    go true true a b t = (t, is_whatsapp_eq d.domain_type a ∙ sym (is_whatsapp_eq e.domain_type b))
    go true false a b t =
        absurd (cut-plain d.user e.user e.domain_type u.no_underscore v.no_underscore t)
    go false true a b t =
        absurd (cut-plain e.user d.user d.domain_type v.no_underscore u.no_underscore (sym t))
    go false false a b t =
        let (same, texts) =
          cut_at b'_' d.user (number_text d.domain_type) e.user (number_text e.domain_type)
            u.no_underscore v.no_underscore t in
        (same, number_text-injective d.domain_type e.domain_type texts)

has-signal_user : (d : FullJid) → has b'.' d.user ≡ false → has b'.' (signal_user d) ≡ false
has-signal_user d h = go (is_whatsapp d.domain_type)
  where
    go :
        (p : Bool)
        → has b'.' (if p then d.user else d.user ++ (b'_' ∷ number_text d.domain_type)) ≡ false
    go true = h
    go false =
        has-append b'.' d.user (b'_' ∷ number_text d.domain_type) h
          (unfold has in has-number_text d.domain_type)

abbrev expected : FullJid → ProtocolAddress
expected d = record { id = signal_user d; device_id = device_or_zero d.device }

address_of-address : (d : FullJid) (a : ProtocolAddress) → address_of d ≡ address a → a ≡ expected d
unfolding address_of
address_of-address d a h =
    go (not (present (some d.user)))
      (is_device_99 d.device && (not (str_eq d.server hosted) && not (str_eq d.server hosted_lid)))
      h
  where
    go :
        (p q : Bool)
        → ◌≡◌ {A = Addressed}
            (if p
              then refused empty_user
              else if q
              then refused unexpected_device_99
              else address (expected d))
            (address a)
        → a ≡ expected d
    go true q e = cc
    go false true e = cc
    go false false e = ap address_in (sym e)
      where
        address_in : Addressed → ProtocolAddress
        address_in (address b) = b
        address_in (refused r) = a

addressed :
    (j : Str) (d : FullJid)
    → jid_decode j ≡ some d
    → jid_to_signal_protocol_address j ≡ address_of d
unfolding jid_to_signal_protocol_address
addressed j d h = rw (h, jid_to_signal_protocol_address) refl

-- Two JIDs with the same address have the same user, the same domain type and the same device, where a
-- missing one is the device 0. The domain type is the number of the agent where the user has one, as
-- in `15_1@s.whatsapp.net`, and that of the server otherwise. No user has a dot in it.
pub address_text-injective :
    (j k : Str) (d e : FullJid) (a b : ProtocolAddress)
    → jid_decode j ≡ some d
    → jid_decode k ≡ some e
    → has b'.' d.user ≡ false
    → has b'.' e.user ≡ false
    → jid_to_signal_protocol_address j ≡ address a
    → jid_to_signal_protocol_address k ≡ address b
    → address_text a ≡ address_text b
    → (d.user ≡ e.user)
      × (d.domain_type ≡ e.domain_type)
      × (device_or_zero d.device ≡ device_or_zero e.device)
address_text-injective j k d e a b dj ek hd he ja kb t =
    let at : address_text a ≡ signal_user d ++ (b'.' ∷ number_text (device_or_zero d.device)) =
      ap address_text (address_of-address d a (sym (addressed j d dj) ∙ ja)) in
    let bt : address_text b ≡ signal_user e ++ (b'.' ∷ number_text (device_or_zero e.device)) =
      ap address_text (address_of-address e b (sym (addressed k e ek) ∙ kb)) in
    let (users, devices) =
      cut_at b'.' (signal_user d) (number_text (device_or_zero d.device)) (signal_user e)
        (number_text (device_or_zero e.device)) (has-signal_user d hd) (has-signal_user e he)
        (sym at ∙ t ∙ bt) in
    let (same, domains) =
      signal_user-injective d e (jid_decode-IsUser j d dj) (jid_decode-IsUser k e ek) users in
    (
      same,
      domains,
      number_text-injective (device_or_zero d.device) (device_or_zero e.device) devices,
    )
