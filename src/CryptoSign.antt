-- ===== src/CryptoSign.antt =====
-- src/common/crypto_sign.cpp: signatures with keys from files. OpenSSL is a parameter.
pub mod Keys
use myblockchain.Prelude.{
  ◌≡◌, ◌≢◌, ◌↔◌, refl, Bool, true, false, not, Option, none, some, if◌then◌else◌, String,
  string_key, arith, Bool-cases, inl, inr, sym, ◌∙◌, ap,
}

-- What EVP_VerifyFinal answers: 1, 0, and a negative number.
pub data Verdict : Type 0 where
  accepted refused error : Verdict

-- The calls of OpenSSL, with their success, and the files. A key is a pointer, `none` when it is null.
pub record OpenSsl : Type 1 where
  pub Context : Type 0
  pub PublicKey : Type 0
  pub PrivateKey : Type 0
  pub Rsa : Type 0
  pub File : Type 0
  pub empty_file : File
  pub md_init : Context → Context
  pub sign_init : Context → Bool × Context
  pub sign_update : Context → String → Bool × Context
  pub sign_final : Context → Option PrivateKey → Bool × String × Context
  pub verify_init : Context → Bool × Context
  pub verify_update : Context → String → Bool × Context
  pub verify_final : Context → String → Option PublicKey → Verdict × Context
  pub public_of : Rsa → PublicKey
  pub private_of : Rsa → PrivateKey
  pub write_public : Rsa → File
  pub write_private : Rsa → String → File
  pub read_public : File → Option PublicKey
  pub read_private : File → String → Option PrivateKey
  pub read-write_public : (rsa : Rsa) → read_public (write_public rsa) ≡ some (public_of rsa)
  pub read-write_private :
      (rsa : Rsa) (password : String)
      → read_private (write_private rsa password) password ≡ some (private_of rsa)

-- Is an answer other than 0? That is what `!EVP_VerifyFinal(...)` asks.
abbrev pub is_nonzero : Verdict → Bool
is_nonzero Verdict.accepted = true
is_nonzero Verdict.refused = false
is_nonzero Verdict.error = true

-- Which calls of `generateKeyFiles` have success.
pub record Attempts : Type 0 where
  pub bio_new : Bool
  pub write_filename : Bool
  pub pem_public : Bool
  pub bio_new_file : Bool
  pub pem_private : Bool

module _ (ssl : OpenSsl) where
  open ssl use {
    Context, PublicKey, PrivateKey, Rsa, File, empty_file, md_init, sign_init, sign_update,
    sign_final, verify_init, verify_update, verify_final, write_public, write_private, read_public,
    read_private,
  }

  pub record CryptoSign : Type 0 where
    pub md_context : Context
    pub pub_key : Option PublicKey
    pub piv_key : Option PrivateKey

  -- The success, the signature and the object; `blank` is the text of 1024 zeros that is left in the
  -- signature by a failure.
  unfoldable pub rsa_encrypt : String → String → CryptoSign → Bool × String × CryptoSign
  rsa_encrypt blank message s =
      let (begun, c1) = sign_init (md_init s.md_context) in
      let (taken, c2) = sign_update c1 message in
      let (made, signature, c3) = sign_final c2 s.piv_key in
      if begun
      then (if taken
          then (if made
              then (true, signature, record s { md_context = c3 })
              else (false, blank, record s { md_context = c3 }))
          else (false, blank, record s { md_context = c2 }))
      else (false, blank, record s { md_context = c1 })

  unfoldable pub rsa_decrypt : String → String → CryptoSign → Bool × CryptoSign
  rsa_decrypt message signature s =
      let (begun, c1) = verify_init (md_init s.md_context) in
      let (taken, c2) = verify_update c1 message in
      let (verdict, c3) = verify_final c2 signature s.pub_key in
      if begun
      then (if taken
          then (is_nonzero verdict, record s { md_context = c3 })
          else (false, record s { md_context = c2 }))
      else (false, record s { md_context = c1 })

  -- The files by their names.
  abbrev pub Files : Type 0
  Files = String → Option File

  abbrev pub write_file : Files → String → File → Files
  write_file files name file k = if string_key.beq name k then some file else files k

  unfoldable pub generate_key_files :
      Attempts → Rsa → String → String → String → Files → Bool × Files
  generate_key_files try rsa pub_keyfile pri_keyfile password files =
      let created = write_file files pub_keyfile empty_file in
      let written = write_file created pub_keyfile (write_public rsa) in
      let opened = write_file written pri_keyfile empty_file in
      let finished = write_file opened pri_keyfile (write_private rsa password) in
      if not try.bio_new
      then (false, files)
      else if not try.write_filename
      then (false, files)
      else if not try.pem_public
      then (false, created)
      else if not try.bio_new_file
      then (false, written)
      else if not try.pem_private
      then (false, opened)
      else (true, finished)

  -- With whether the BIO and the key object are made; a file that is missing cannot be read.
  unfoldable pub open_public_key : Bool → Bool → String → Files → Option PublicKey
  open_public_key bio_made key_made keyfile files =
      if bio_made
      then (elim (files keyfile) [
        | none ↦ none
        | some file ↦ elim (read_public file) [
          | none ↦ none
          | some key ↦ if key_made then some key else none
        ]
      ])
      else none

  unfoldable pub open_private_key : Bool → Bool → String → String → Files → Option PrivateKey
  open_private_key bio_made key_made keyfile password files =
      if bio_made
      then (elim (files keyfile) [
        | none ↦ none
        | some file ↦ elim (read_private file password) [
          | none ↦ none
          | some key ↦ if key_made then some key else none
        ]
      ])
      else none

  -- The constructor, when no call fails for lack of memory.
  unfoldable pub crypto_sign : Context → String → String → String → Files → CryptoSign
  unfolding open_public_key open_private_key
  crypto_sign c pub_key_file piv_key_file password files = record {
    md_context = c;
    pub_key = open_public_key true true pub_key_file files;
    piv_key = open_private_key true true piv_key_file password files;
  }
