-- ===== src/Crypto/Tests.antt =====
-- Ciphers that leave their text alone.
use nexawhats.Common.{refl, some, [], ◌∷◌, ◌++◌}
use nexawhats.Crypto.{Bytes, NodeCrypto}
use nexawhats.Crypto.Laws.{IsSound}

abbrev pub sixteen : Bytes
sixteen = 1 ∷ 2 ∷ 3 ∷ 4 ∷ 5 ∷ 6 ∷ 7 ∷ 8 ∷ 9 ∷ 10 ∷ 11 ∷ 12 ∷ 13 ∷ 14 ∷ 15 ∷ 16 ∷ []

abbrev pub plain_crypto : NodeCrypto
plain_crypto = record {
  hmac = λ key data'. sixteen ++ sixteen;
  hash = λ data'. sixteen ++ sixteen;
  gcm_seal = λ key iv aad text. (text, sixteen);
  gcm_open = λ key iv aad text tag. some text;
  diffie_hellman = λ private_key public_key. some (sixteen ++ sixteen);
}

pub plain_crypto-IsSound : IsSound plain_crypto
plain_crypto-IsSound = record {
  digest = λ key data'. refl;
  tag = λ key iv aad text. refl;
  size = λ key iv aad text. refl;
  opened = λ key iv aad text. refl;
}
