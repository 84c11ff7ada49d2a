-- ===== src/Noise/Established.antt =====
-- What holds when `performHandshake` resolves.
use nexawhats.Common.{
  ◌>>=◌, ℕ, ◌==◌, ◌≡◌, refl, ap, subst, sym, ◌∙◌, arith, if◌then◌else◌, true, false, Option, none,
  some, [], ◌++◌, length, drop,
}
use nexawhats.Crypto.{Bytes, NodeCrypto}
use nexawhats.Noise.{
  Cipher, Noise, authenticate, encrypt, decrypt, finish_init, cert_serial, intro, frame_length,
  payload_of, frame_payload, encode_frame,
}
use nexawhats.Noise.Handshake.{
  ServerHello, RawKeyPair, Messages, Error, bad_ciphertext, undecodable, missing_server_hello,
  certificate_mismatch, Result, ok, err, bind, or_throw, mix_shared, check_cert, process_handshake,
  sent_or_throw, perform_handshake,
}

bind-eq-ok {ℓ κ} :
    {A : Type ℓ} {B : Type κ} (m : Result A) (f : A → Result B) {b : B}
    → bind m f ≡ ok b
    → (a : A) × (m ≡ ok a) × (f a ≡ ok b)
bind-eq-ok (ok a) f h = (a, refl, h)
bind-eq-ok (err e) f h = cc

or_throw-eq-ok {ℓ} :
    {A : Type ℓ} (e : Error) (o : Option A) {a : A} → or_throw e o ≡ ok a → o ≡ some a
or_throw-eq-ok e none h = cc
or_throw-eq-ok e (some a) h = cc

sent_or_throw-eq-ok :
    (c : NodeCrypto) (m : Messages) (q : Noise × Option Bytes) {r : Noise × Bytes}
    → sent_or_throw q ≡ ok r
    → (q.0 ≡ r.0) × (q.1 ≡ some r.1)
sent_or_throw-eq-ok c m (s, none) h = cc
sent_or_throw-eq-ok c m (s, some frame) h = ground (arith, h)

-- Parts of what `performHandshake` gives, under a value for when it gives nothing.
first_frame : Bytes → Result (Noise × Bytes × Bytes) → Bytes
first_frame d (ok (q, f, g)) = f
first_frame d (err x) = d

from_cipher {ℓ} : {A : Type ℓ} → (Cipher → A) → A → Result (Noise × Bytes × Bytes) → A
from_cipher f d (ok (q, _, _)) = f q.cipher
from_cipher f d (err x) = d

module _ (c : NodeCrypto) (m : Messages) where
  -- A certificate in the payload of the hello. The cipher that decrypts it is the one of the start
  -- after the server's ephemeral key went into the hash, the secret shared with that key was mixed
  -- in, the server's static key was decrypted, and the secret shared with this one was mixed in.
  pub record Certified (private_key : Bytes) (s : Cipher) (hello : ServerHello) : Type 0 where
    pub shared : Cipher
    pub ephemeral_mixed :
        mix_shared c m private_key hello.ephemeral (authenticate c hello.ephemeral s) ≡ ok shared
    pub static : Bytes
    pub opened : Cipher
    pub static_decrypted : decrypt c hello.static shared ≡ some (static, opened)
    pub before : Cipher
    pub static_mixed : mix_shared c m private_key static opened ≡ ok before
    pub after : Cipher
    pub cert : Bytes
    pub decrypted : decrypt c hello.payload before ≡ some (cert, after)
    pub serial : m.issuer_serial cert ≡ some cert_serial

  check_cert-eq-ok :
      (cert : Bytes) {u : Unit {0}}
      → check_cert c m cert ≡ ok u
      → m.issuer_serial cert ≡ some cert_serial
  unfolding check_cert
  check_cert-eq-ok cert h =
      let (serial, found, same) = bind-eq-ok (or_throw undecodable (m.issuer_serial cert)) _ h in
      or_throw-eq-ok undecodable (m.issuer_serial cert) found ∙ ap some (equal serial same)
    where
      equal :
          (n : ℕ) {u : Unit {0}}
          → (if n == cert_serial then ok tt else err certificate_mismatch) ≡ ok u
          → n ≡ cert_serial
      equal n e = ground (arith, e)

  process_handshake-Certified :
      (private_key : Bytes) (hello : ServerHello) (noise_key : RawKeyPair) (s : Cipher)
      {r : Bytes × Cipher}
      → process_handshake c m private_key hello noise_key s ≡ ok r
      → Certified private_key s hello
  unfolding process_handshake
  process_handshake-Certified private_key hello noise_key s h =
      let (s1, mixed, h1) =
        bind-eq-ok (mix_shared c m private_key hello.ephemeral (authenticate c hello.ephemeral s)) _
          h in
      let ((static, s2), static_opened, h2) =
        bind-eq-ok (or_throw bad_ciphertext (decrypt c hello.static s1)) _ h1 in
      let (s3, mixed_again, h3) = bind-eq-ok (mix_shared c m private_key static s2) _ h2 in
      let ((cert, s4), opened, h4) =
        bind-eq-ok (or_throw bad_ciphertext (decrypt c hello.payload s3)) _ h3 in
      let (_, checked, _) = bind-eq-ok (check_cert c m cert) _ h4 in
      record {
        shared = s1;
        ephemeral_mixed = mixed;
        static = static;
        opened = s2;
        static_decrypted = or_throw-eq-ok bad_ciphertext (decrypt c hello.static s1) static_opened;
        static_mixed = mixed_again;
        before = s3;
        after = s4;
        cert = cert;
        decrypted = or_throw-eq-ok bad_ciphertext (decrypt c hello.payload s3) opened;
        serial = check_cert-eq-ok cert checked;
      }

  encode_frame-first :
      (routing_info : Option Bytes) (header data' frame : Bytes) (s s1 : Noise)
      → s.sent_intro ≡ false
      → s.cipher.is_finished ≡ false
      → encode_frame c routing_info header data' s ≡ (s1, some frame)
      → (first : Bytes) × (size : Bytes) × (intro routing_info header ≡ some first)
        × (frame_length (length data') ≡ some size)
        × (frame ≡ first ++ (size ++ data'))
        × (s1.cipher ≡ s.cipher)
  unfolding encode_frame frame_payload
  encode_frame-first routing_info header data' frame s s1 k e h =
      go (intro routing_info header) (frame_length (length data')) refl refl
    where
      plain : payload_of c data' s.cipher ≡ (data', s.cipher)
      plain = ground (arith, e)

      go :
          (o size : Option Bytes)
          → intro routing_info header ≡ o
          → frame_length (length data') ≡ size
          → (first : Bytes) × (size : Bytes) × (intro routing_info header ≡ some first)
            × (frame_length (length data') ≡ some size)
            × (frame ≡ first ++ (size ++ data'))
            × (s1.cipher ≡ s.cipher)
      go none size p q =
          cc (
            sym (ap (λ w. (frame_payload s w (payload_of c data' s.cipher)).1) p) ∙ ap (λ w. w.1) h)
      go (some first) none p q = cc (
          sym (
            ap (λ w. (frame_payload s w (payload_of c data' s.cipher)).1) p
            ∙ ap (λ w. (frame_payload s (some first) w).1) plain
            ∙ ap
                (λ (z : Option Bytes).
                  z >>= λ n. some ((if s.sent_intro then [] else first) ++ (n ++ data')))
                q)
          ∙ ap (λ w. w.1) h)
      go (some first) (some size) p q =
          (first, size, p, q, ground (arith, h, p, q, plain, k), ground (arith, h, p, q, plain))

  -- What holds of the answer, the first frame and the handler at the end, `s'`, where the handshake
  -- started with `s`.
  pub record Established (routing_info : Option Bytes) (header : Bytes) (ephemeral : RawKeyPair)
      (server_frame hello_frame : Bytes) (s s' : Noise) : Type 0 where
    pub hello : ServerHello
    pub answered : m.server_hello (drop 3 server_frame) ≡ some (some hello)
    pub certified : Certified ephemeral.private_key s.cipher hello
    pub first : Bytes
    pub size : Bytes
    pub started : intro routing_info header ≡ some first
    pub sized : frame_length (length (m.client_hello ephemeral.public_key)) ≡ some size
    pub framed : hello_frame ≡ first ++ (size ++ m.client_hello ephemeral.public_key)
    pub finished : s'.cipher.is_finished ≡ true
    pub read_counter : s'.cipher.read_counter ≡ 0
    pub write_counter : s'.cipher.write_counter ≡ 0
    pub hash : s'.cipher.hash ≡ []

  -- What the last step gives, when the steps before it went well.
  established :
      (routing_info : Option Bytes) (header server_frame : Bytes) (ephemeral : RawKeyPair)
      (s s1 s4 s' : Noise) (frame1 frame2 hello_frame finish_frame : Bytes) (hello : ServerHello)
      → s.sent_intro ≡ false
      → s.cipher.is_finished ≡ false
      → sent_or_throw (encode_frame c routing_info header (m.client_hello ephemeral.public_key) s)
        ≡ ok (s1, frame1)
      → m.server_hello (drop 3 server_frame) ≡ some (some hello)
      → Certified ephemeral.private_key s1.cipher hello
      → ◌≡◌ {A = Result (Noise × Bytes × Bytes)}
          (ok (record s4 { cipher = finish_init c s4.cipher }, frame1, frame2))
          (ok (s', hello_frame, finish_frame))
      → Established routing_info header ephemeral server_frame hello_frame s s'
  unfolding finish_init first_frame from_cipher
  established routing_info header server_frame ephemeral s s1 s4 s' frame1 frame2 hello_frame
        finish_frame hello k e sent1 answered certified last =
      let (same, frame) =
        sent_or_throw-eq-ok c m
          (encode_frame c routing_info header (m.client_hello ephemeral.public_key) s) sent1 in
      let (first, size, started, sized, framed, unchanged) =
        encode_frame-first routing_info header (m.client_hello ephemeral.public_key) frame1 s s1 k e
          (ground (arith, same, frame)) in
      record {
        hello = hello;
        answered = answered;
        certified = subst (λ q. Certified ephemeral.private_key q hello) unchanged certified;
        first = first;
        size = size;
        started = started;
        sized = sized;
        framed = ap (first_frame hello_frame) (sym last) ∙ framed;
        finished = ap (from_cipher (λ q. q.is_finished) true) (sym last);
        read_counter = ap (from_cipher (λ q. q.read_counter) 0) (sym last);
        write_counter = ap (from_cipher (λ q. q.write_counter) 0) (sym last);
        hash = ap (from_cipher (λ q. q.hash) []) (sym last);
      }

  -- When a handshake that starts with a new handler resolves, the answer held a hello whose payload
  -- decrypts to a certificate with the serial that the code expects, under the cipher of the start
  -- with the server's ephemeral key hashed and the secrets shared with it and with the server's static
  -- key mixed in; the first frame was the intro, a length and the client's hello; and the ciphers are
  -- finished, with both counters at zero and an empty hash.
  pub perform_handshake-Established :
      (routing_info : Option Bytes) (header : Bytes) (ephemeral noise_key : RawKeyPair)
      (client_payload server_frame : Bytes) (s : Noise) (s' : Noise)
      (hello_frame finish_frame : Bytes)
      → s.sent_intro ≡ false
      → s.cipher.is_finished ≡ false
      → perform_handshake c m routing_info header ephemeral noise_key client_payload server_frame s
        ≡ ok (s', hello_frame, finish_frame)
      → Established routing_info header ephemeral server_frame hello_frame s s'
  unfolding perform_handshake
  perform_handshake-Established routing_info header ephemeral noise_key client_payload server_frame
        s s' hello_frame finish_frame k e h =
      let ((s1, frame1), sent1, h1) =
        bind-eq-ok
          (sent_or_throw
            (encode_frame c routing_info header (m.client_hello ephemeral.public_key) s))
          _ h in
      let (reply, answered, h2) =
        bind-eq-ok (or_throw undecodable (m.server_hello (drop 3 server_frame))) _ h1 in
      let (hello, there, h3) = bind-eq-ok (or_throw missing_server_hello reply) _ h2 in
      let ((key_enc, s2), processed, h4) =
        bind-eq-ok (process_handshake c m ephemeral.private_key hello noise_key s1.cipher) _ h3 in
      let (payload_enc, s3) = encrypt c client_payload s2 in
      let ((s4, frame2), sent2, h5) =
        bind-eq-ok
          (sent_or_throw (
            encode_frame c routing_info header (m.client_finish key_enc payload_enc)
              (record s1 { cipher = s3 })))
          _ h4 in
      established routing_info header server_frame ephemeral s s1 s4 s' frame1 frame2 hello_frame
        finish_frame hello k e sent1
        (or_throw-eq-ok undecodable (m.server_hello (drop 3 server_frame)) answered
          ∙ ap some (or_throw-eq-ok missing_server_hello reply there))
        (process_handshake-Certified ephemeral.private_key hello noise_key s1.cipher processed) h5
