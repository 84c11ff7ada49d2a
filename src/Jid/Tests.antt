-- ===== src/Jid/Tests.antt =====
-- Runs of src/utils/jid.ts on addresses of the repository's tests.
use nexawhats.Common.{◌≡◌, refl, none, some}
use nexawhats.Common.Text.{Str, codes, has}
use nexawhats.Jid.{FullJid, jid_encode, jid_decode, jid_normalized_user, s_whatsapp_net, domain_of}
use nexawhats.Jid.Numbers.{num}
use nexawhats.Jid.Laws.{IsUser, jid_decode-jid_encode}
use nexawhats.Jid.Normalisation.{jid_normalized_user_idem}

abbrev alice : Str
alice = codes "15551234"

alice-IsUser : IsUser alice
unfolding has
alice-IsUser = record { no_at = refl; no_colon = refl; no_underscore = refl }

abbrev alice_jid : Str
alice_jid = codes "15551234@s.whatsapp.net"

abbrev bob_device : Str
bob_device = codes "447700900:7@s.whatsapp.net"

abbrev alice_decoded : FullJid
alice_decoded = record {
  user = alice;
  device = none;
  server = s_whatsapp_net;
  domain_type = domain_of s_whatsapp_net none;
}

decode_alice : jid_decode alice_jid ≡ some alice_decoded
unfolding jid_decode
decode_alice = refl

jid_decode-jid_encode_example :
    jid_decode (jid_encode alice s_whatsapp_net (some (num 12)) none)
    ≡ some (record {
      user = alice;
      device = some (num 12);
      server = s_whatsapp_net;
      domain_type = domain_of s_whatsapp_net none;
    })
jid_decode-jid_encode_example =
    jid_decode-jid_encode alice s_whatsapp_net (some (num 12)) alice-IsUser

normalized_contact : jid_normalized_user (codes "15551234:3@c.us") ≡ alice_jid
unfolding jid_normalized_user jid_decode jid_encode
normalized_contact = refl

jid_normalized_user_idem_example :
    jid_normalized_user (jid_normalized_user (codes "15551234:3@c.us"))
    ≡ jid_normalized_user (codes "15551234:3@c.us")
jid_normalized_user_idem_example = jid_normalized_user_idem (codes "15551234:3@c.us")
