-- ===== src/Jid/Normalisation.antt =====
-- What src/utils/jid.ts makes of an address that is normalised, or moved to another device.
use nexawhats.Common.{
  ◌≡◌, refl, ◌∙◌, ap, if◌then◌else◌, true, none, some, ◌∷◌, ◌++◌, inl, inr, Bool-cases,
  Option-cases,
}
use nexawhats.Common.Text.{Str, str_eq, str_eq_refl}
use nexawhats.Jid.{
  FullJid, jid_encode, jid_decode, domain_of, jid_normalized_user, c_us, s_whatsapp_net,
  normalized_of, transferred, device_or_zero, transfer_device, same_user, are_jids_same_user,
}
use nexawhats.Jid.Numbers.{Number}
use nexawhats.Jid.Laws.{decode_plain, kept, jid_decode-jid_encode, jid_decode-IsUser}

normal_server : Str → Str
normal_server server = if str_eq server c_us then s_whatsapp_net else server

normal_server_idem : (server : Str) → normal_server (normal_server server) ≡ normal_server server
unfolding normal_server
normal_server_idem server = elim (Bool-cases (str_eq server c_us)) [
  | inl e ↦ rw e (unfold str_eq in refl)
  | inr e ↦ rw e (rw e refl)
]

normalized_eq : (jid : Str) → jid_normalized_user jid ≡ normalized_of (jid_decode jid)
unfolding jid_normalized_user
normalized_eq jid = refl

encode_plain : (user server : Str) → jid_encode user server none none ≡ user ++ (b'@' ∷ server)
unfolding jid_encode
encode_plain user server = refl

normalized_some :
    (jid : Str) (d : FullJid)
    → jid_decode jid ≡ some d
    → jid_normalized_user jid ≡ d.user ++ (b'@' ∷ normal_server d.server)
unfolding normal_server
normalized_some jid d e = normalized_eq jid ∙ rw e (encode_plain d.user _)

-- Normalising an address a second time changes nothing, whatever the text.
pub jid_normalized_user_idem :
    (jid : Str) → jid_normalized_user (jid_normalized_user jid) ≡ jid_normalized_user jid
jid_normalized_user_idem jid = elim (Option-cases (jid_decode jid)) [
  | inl e ↦ rw (normalized_eq jid) (rw e (unfold jid_normalized_user in refl))
  | inr (d, e) ↦ rw (normalized_some jid d e) (
      normalized_some _ _ (decode_plain d.user (normal_server d.server) (jid_decode-IsUser jid d e))
      ∙ ap (λ s. d.user ++ (b'@' ∷ s)) (normal_server_idem d.server))
]

transfer_eq :
    (from to : Str)
    → transfer_device from to ≡ transferred to (device_or_zero (jid_decode from)) (jid_decode to)
unfolding transfer_device
transfer_eq from to = refl

transferred_decodes :
    (to : Str) (d : FullJid) (device : Number)
    → jid_decode to ≡ some d
    → jid_decode (transferred to device (some d))
      ≡ some (record {
        user = d.user;
        device = kept (some device);
        server = d.server;
        domain_type = domain_of d.server none;
      })
transferred_decodes to d device e =
    jid_decode-jid_encode d.user d.server (some device) (jid_decode-IsUser to d e)

-- Where the second text is an address, transferring a device gives an address with its user and
-- server and with the first one's device, which is left out if it is missing, 0 or no number.
jid_decode-transfer_device :
    (from to : Str) (d : FullJid)
    → jid_decode to ≡ some d
    → jid_decode (transfer_device from to)
      ≡ some (record {
        user = d.user;
        device = kept (some (device_or_zero (jid_decode from)));
        server = d.server;
        domain_type = domain_of d.server none;
      })
jid_decode-transfer_device from to d e =
    rw (transfer_eq from to) (rw e (transferred_decodes to d (device_or_zero (jid_decode from)) e))

same_user_eq :
    (a b : Str) → are_jids_same_user (some a) (some b) ≡ same_user (jid_decode a) (jid_decode b)
unfolding are_jids_same_user
same_user_eq a b = refl

-- Transferring a device never changes whose address it is, whatever the two texts.
are_jids_same_user-transfer_device :
    (from to : Str) → are_jids_same_user (some to) (some (transfer_device from to)) ≡ true
are_jids_same_user-transfer_device from to = elim (Option-cases (jid_decode to)) [
  | inl e ↦ rw (transfer_eq from to) (rw e (same_user_eq to to ∙ rw e refl))
  | inr (d, e) ↦
      same_user_eq to _ ∙ rw (e, jid_decode-transfer_device from to d e) (str_eq_refl d.user)
]
