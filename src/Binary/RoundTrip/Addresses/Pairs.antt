-- ===== src/Binary/RoundTrip/Addresses/Pairs.antt =====
-- Addresses of a user and a server.
use nexawhats.Common.{
  ℕ, zero, suc, ◌+◌, ◌<◌, ◌≡◌, ◌≢◌, refl, ap, ◌∙◌, arith, Option, none, some, List, [], ◌∷◌, ◌++◌,
  length, length-append, append_assoc,
}
use nexawhats.Common.Text.{Str, has}
use nexawhats.Jid.{jid_encode, s_whatsapp_net, get_server_from_domain_type}
use nexawhats.Jid.Numbers.{Number, num}
use nexawhats.Jid.Laws.{IsUser, decode_plain}
use nexawhats.Binary.Tokens.{CodingOptions}
use nexawhats.Binary.Encoder.{write_jid}
use nexawhats.Binary.Decoder.{
  Reader, ok, read_string_from, read_tag, read_jid_pair, read_ad_jid, read_byte, pair_result,
}
use nexawhats.Binary.RoundTrip.Strings.{Carried, read_pair}
use nexawhats.Binary.RoundTrip.Addresses.Plain.{IsSound, Address}

-- Reading the second part of an address.
read_pair_end :
    (i j : Str) (rest : List ℕ) → j ≢ [] → pair_result i j rest ≡ ok (i ++ (b'@' ∷ j), rest)
read_pair_end i [] rest ne = absurd (ne refl)
read_pair_end i (c ∷ cs) rest ne = refl

pair_read :
    (read : ℕ → Reader Str) (t u : ℕ) (i j : Str) (bs more rest : List ℕ)
    → read t bs ≡ ok (i, u ∷ more)
    → read u more ≡ ok (j, rest)
    → j ≢ []
    → read_jid_pair read (t ∷ bs) ≡ ok (i ++ (b'@' ∷ j), rest)
unfolding read_jid_pair read_byte
pair_read read t u i j bs more rest e f ne = rw e (rw f (read_pair_end i j rest ne))

pub device_read :
    (read : ℕ → Reader Str) (domain n t : ℕ) (user : Str) (bs rest : List ℕ)
    → read t bs ≡ ok (user, rest)
    → read_ad_jid read (domain ∷ n ∷ t ∷ bs)
      ≡ ok (
        jid_encode user (get_server_from_domain_type s_whatsapp_net domain) (some (num n)) none,
        rest,
      )
unfolding read_ad_jid read_byte
device_read read domain n t user bs rest e = rw e refl

read_empty :
    (opts : CodingOptions) (g : ℕ) (bs : List ℕ) → read_string_from opts (suc g) 0 bs ≡ ok ([], bs)
unfolding read_string_from read_tag
read_empty opts g bs = refl

mark_free : IsUser []
unfolding has
mark_free = record { no_at = refl; no_colon = refl; no_underscore = refl }

write_pair_written :
    (write : Str → Option (List ℕ)) (user server : Str) (d : Number) {u v : List ℕ}
    → user ≢ []
    → write user ≡ some u
    → write server ≡ some v
    → write_jid write (record { user = user; device = none; server = server; domain_type = d })
      ≡ some (250 ∷ (u ++ v))
unfolding write_jid
write_pair_written write [] server d ne e f = absurd (ne refl)
write_pair_written write (c ∷ user) server d ne e f = rw e (rw f refl)

module _ (opts : CodingOptions) (h : IsSound opts) (fuel : ℕ) (server : Str) where
  pub no_user-Address : server ≢ [] → Carried opts fuel server → Address opts fuel (b'@' ∷ server)
  unfolding write_jid
  no_user-Address ne c = record {
    tag = 250;
    body = 0 ∷ c.tag ∷ c.body;
    decoded = _;
    is_address = decode_plain [] server mark_free;
    written = rw c.written refl;
    plain_tag = omega arith;
    read_back = back;
  }
    where
      back :
          (g : ℕ) (rest : List ℕ)
          → length (0 ∷ c.tag ∷ (c.body ++ rest)) < g
          → read_string_from opts g 250 (0 ∷ c.tag ∷ (c.body ++ rest)) ≡ ok (b'@' ∷ server, rest)
      back zero rest bound = absurd (omega arith)
      back (suc zero) rest bound = absurd (omega arith)
      back (suc (suc g)) rest bound =
          read_pair opts h.table (suc g) _
          ∙ pair_read (read_string_from opts (suc g)) 0 c.tag [] server _ (c.body ++ rest) rest
              (read_empty opts g _) (c.read_back (suc g) rest (omega arith)) ne

  pub pair-Address :
      (user : Str)
      → IsUser user
      → user ≢ []
      → server ≢ []
      → Carried opts fuel user
      → Carried opts fuel server
      → Address opts fuel (user ++ (b'@' ∷ server))
  pair-Address user marks some_user some_server c d = record {
    tag = 250;
    body = (c.tag ∷ c.body) ++ (d.tag ∷ d.body);
    decoded = _;
    is_address = decode_plain user server marks;
    written = write_pair_written _ user server _ some_user c.written d.written;
    plain_tag = omega arith;
    read_back = back;
  }
    where
      regroup :
          (rest : List ℕ)
          → ((c.tag ∷ c.body) ++ (d.tag ∷ d.body)) ++ rest
            ≡ c.tag ∷ (c.body ++ (d.tag ∷ (d.body ++ rest)))
      regroup rest = append_assoc (c.tag ∷ c.body) (d.tag ∷ d.body) rest

      inner :
          (rest : List ℕ)
          → length ((c.body ++ (d.tag ∷ d.body)) ++ rest)
            ≡ length (c.body ++ (d.tag ∷ (d.body ++ rest)))
      inner rest = ap length (append_assoc c.body (d.tag ∷ d.body) rest)

      lengths :
          (rest : List ℕ)
          → length (c.body ++ (d.tag ∷ (d.body ++ rest)))
            ≡ length c.body + 1 + length (d.body ++ rest)
      lengths rest = omega (arith, length-append c.body (d.tag ∷ (d.body ++ rest)))

      back :
          (g : ℕ) (rest : List ℕ)
          → length (((c.tag ∷ c.body) ++ (d.tag ∷ d.body)) ++ rest) < g
          → read_string_from opts g 250 (((c.tag ∷ c.body) ++ (d.tag ∷ d.body)) ++ rest)
            ≡ ok (user ++ (b'@' ∷ server), rest)
      back zero rest bound = absurd (omega arith)
      back (suc g) rest bound =
          ap (λ t. read_string_from opts (suc g) 250 t) (regroup rest)
          ∙ read_pair opts h.table g _
          ∙ pair_read (read_string_from opts g) c.tag d.tag user server _ (d.body ++ rest) rest
              (c.read_back g (d.tag ∷ (d.body ++ rest)) (omega (arith, inner rest)))
              (d.read_back g rest (omega (arith, inner rest, lengths rest))) some_server
