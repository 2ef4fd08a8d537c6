-- ===== src/Common/Aes.antt =====
-- common/aes_cbc.go: the decryption of a base64 text by AES in CBC mode. Packages base64, aes and json
-- are given; CBC with a vector or a text of the wrong length panics.
use optimusprime.Prelude.{
  ℕ, ◌%◌, Bool, true, false, ◌&&◌, ◌==◌, if◌then◌else◌, Option, none, some, length, ◌≡◌, refl,
  Bool-cases, ◌⊎◌, inl, inr,
}
use optimusprime.Prelude.Text.{Bytes}

pub data AesError : Type 0 where
  bad_base64 bad_key bad_json : AesError

pub data Decrypted {ℓ} (A : Type ℓ) : Type ℓ where
  decrypted : A → Decrypted A
  fails : AesError → Decrypted A
  panics : Decrypted A

-- The decoder of base64, whether a key has the length of one, and the decryption of blocks, for a key
-- and a vector.
pub record Crypto : Type 0 where
  pub decode : Bytes → Option Bytes
  pub is_key : Bytes → Bool
  pub decrypt_blocks : Bytes → Bytes → Bytes → Bytes

abbrev pub block_size : ℕ
block_size = 16

-- `NewCBCDecrypter` wants a vector of one block, `CryptBlocks` whole blocks.
unfoldable pub crypt_blocks : Crypto → Bytes → Bytes → Bytes → Decrypted Bytes
crypt_blocks c key iv data_bytes =
    if c.is_key key
    then (if (length iv == block_size) && (length data_bytes % block_size == 0)
        then decrypted (c.decrypt_blocks key iv data_bytes)
        else panics)
    else fails bad_key

unfoldable pub with_iv : Crypto → Bytes → Bytes → Option Bytes → Decrypted Bytes
unfolding crypt_blocks
with_iv c data_bytes key none = fails bad_base64
with_iv c data_bytes key (some iv) = crypt_blocks c key iv data_bytes

unfoldable pub with_key : Crypto → Bytes → Option Bytes → Option Bytes → Decrypted Bytes
unfolding with_iv
with_key c data_bytes none iv = fails bad_base64
with_key c data_bytes (some key) iv = with_iv c data_bytes key iv

unfoldable pub with_data : Crypto → Option Bytes → Option Bytes → Option Bytes → Decrypted Bytes
unfolding with_key
with_data c none key iv = fails bad_base64
with_data c (some data_bytes) key iv = with_key c data_bytes key iv

unfoldable pub aes_decrypt : Crypto → Bytes → Bytes → Bytes → Decrypted Bytes
unfolding with_data
aes_decrypt c text key iv = with_data c (c.decode text) (c.decode key) (c.decode iv)

-- The decoder of JSON reads one value off the front.
unfoldable pub read_json {ℓ} : {A : Type ℓ} → (Bytes → Option A) → Decrypted Bytes → Decrypted A
read_json json (fails e) = fails e
read_json json panics = panics
read_json json (decrypted bs) = elim (json bs) [ none ↦ fails bad_json | some a ↦ decrypted a ]

unfoldable pub aes_decrypt2_obj {ℓ} :
    {A : Type ℓ} → (Bytes → Option A) → Crypto → Bytes → Bytes → Bytes → Decrypted A
unfolding read_json aes_decrypt
aes_decrypt2_obj json c text key iv = read_json json (aes_decrypt c text key iv)

-- Texts that are base64, with a good key, panic just if the vector is not one block, or the text is not
-- whole blocks; otherwise they are decrypted.
pub aes_decrypt_panics :
    (c : Crypto) (text key iv text' key' iv' : Bytes)
    → c.decode text ≡ some text'
    → c.decode key ≡ some key'
    → c.decode iv ≡ some iv'
    → c.is_key key' ≡ true
    → ((((length iv' == block_size) && (length text' % block_size == 0)) ≡ true)
        × (aes_decrypt c text key iv ≡ decrypted (c.decrypt_blocks key' iv' text')))
      ⊎ ((((length iv' == block_size) && (length text' % block_size == 0)) ≡ false)
          × (aes_decrypt c text key iv ≡ panics))
unfolding aes_decrypt with_data with_key with_iv crypt_blocks
aes_decrypt_panics c text key iv text' key' iv' et ek ei good =
    elim (Bool-cases ((length iv' == block_size) && (length text' % block_size == 0))) [
      | inl whole ↦ inl (whole, rw (et, ek, ei, good, whole) refl)
      | inr part ↦ inr (part, rw (et, ek, ei, good, part) refl)
    ]
