-- ===== src/Secrets/Sealing.antt =====
-- `SealingKey` of src/oauth/sealing.rs and its wrapper of src/secret/credential_sealing.rs. The crates
-- aes-gcm and base64 are parameters. The source keeps the key as base64 text and decodes it at each use;
-- here it is kept decoded.
use agent_locksmith.Prelude.{
  ℕ, ◌≡◌, not, Option, some, length, eqb, Result, ok, ◌>>=◌, ◌>>◌, ok_or, reject_if,
}
use agent_locksmith.Text.{Text, trim}
use agent_locksmith.Text.Utf8.{Bytes}

-- AES-256-GCM by its key and nonce: what it encrypted it decrypts.
pub record Aes : Type 0 where
  pub encrypt : Bytes → Bytes → Bytes → Option Bytes
  pub decrypt : Bytes → Bytes → Bytes → Option Bytes
  pub decrypt-encrypt :
      (key nonce plain sealed : Bytes)
      → encrypt key nonce plain ≡ some sealed
      → decrypt key nonce sealed ≡ some plain

pub data SealingKeyError : Type 0 where
  invalid_base64 decrypt_failed nonce_gen_failed : SealingKeyError
  invalid_length invalid_nonce : ℕ → SealingKeyError

abbrev pub key_len : ℕ
key_len = 32

abbrev pub nonce_len : ℕ
nonce_len = 12

-- `decode` is base64's
unfoldable pub from_b64 : (Text → Option Bytes) → Text → Result Bytes SealingKeyError
from_b64 decode b64 = do
  bytes ← ok_or (decode (trim b64)) invalid_base64
  reject_if (not (eqb (length bytes) key_len)) (invalid_length (length bytes))
  ok bytes

-- `random` is the nonce that the operating system gave
unfoldable pub seal : Aes → Bytes → Option Bytes → Bytes → Result (Bytes × Bytes) SealingKeyError
seal aes key random plaintext = do
  nonce ← ok_or random nonce_gen_failed
  sealed ← ok_or (aes.encrypt key nonce plaintext) decrypt_failed
  ok (sealed, nonce)

unfoldable pub unseal : Aes → Bytes → Bytes → Bytes → Result Bytes SealingKeyError
unseal aes key ciphertext nonce = do
  reject_if (not (eqb (length nonce) nonce_len)) (invalid_nonce (length nonce))
  ok_or (aes.decrypt key nonce ciphertext) decrypt_failed
