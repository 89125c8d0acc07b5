-- ===== src/Sha256.antt =====
-- include/common/sha256_hepler.h: the helper that hashes texts. The context is passed along, and
-- the SHA-256 functions of RFC 6234 it calls are a parameter.
use myblockchain.Prelude.{◌≡◌, List, [], ◌∷◌, ◌++◌, Bool, true, false, if◌then◌else◌, String}

-- SHA256Reset, SHA256Input and SHA256Result with their success, and what they are documented to do:
-- a context that was reset and has taken in texts (of less than 2^61 bytes in all) since then
-- takes in another one, and gives the digest of them all. `sha256_result` also has the text
-- that it leaves in the buffer of zeros.
pub record Sha256 : Type 1 where
  pub Context : Type 0
  pub sha256_reset : Context → Bool × Context
  pub sha256_input : Context → String → Bool × Context
  pub sha256_result : Context → Bool × String × Context
  pub digest_of : List String → String
  pub Holds : Context → List String → Type 0
  pub reset-Holds : (c : Context) → ((sha256_reset c).0 ≡ true) × Holds (sha256_reset c).1 []
  pub input-Holds :
      (c : Context) (ts : List String) (t : String)
      → Holds c ts
      → ((sha256_input c t).0 ≡ true) × Holds (sha256_input c t).1 (ts ++ (t ∷ []))
  pub result-Holds :
      (c : Context) (ts : List String)
      → Holds c ts
      → ((sha256_result c).0 ≡ true) × ((sha256_result c).1 ≡ digest_of ts)

-- The last text of a list that starts with this one.
abbrev pub last : String → List String → String
last t [] = t
last t (u ∷ us) = last u us

module _ (sha : Sha256) where
  open sha use {Context, sha256_reset, sha256_input, sha256_result, Holds, reset-Holds, input-Holds}

  abbrev pub reset : Context → Bool × Context
  reset c = sha256_reset c

  abbrev pub append : Context → String → Bool × Context
  append c text = sha256_input c text

  unfoldable pub hash : Context → String → Bool × Context
  hash c text = let (done, c1) = reset c in if done then append c1 text else (false, c1)

  -- The success, the digest and the context.
  unfoldable pub execute : Context → Bool × String × Context
  execute c = sha256_result c

  -- The overload that hashes a text and gives its digest; a failure leaves the digest that was there.
  unfoldable pub hash_digest : Context → String → String → Bool × String × Context
  hash_digest c text digest =
      let (done, c1) = reset c in
      if done
      then (let (more, c2) = append c1 text in if more then execute c2 else (false, digest, c2))
      else (false, digest, c1)

  -- A text is hashed with success from any context, and the context has nothing but that text.
  pub hash-Holds :
      (c : Context) (text : String) → ((hash c text).0 ≡ true) × Holds (hash c text).1 (text ∷ [])
  unfolding hash
  hash-Holds c text =
      let (done, empty) = reset-Holds c in
      rw (hash, done) (input-Holds (sha256_reset c).1 [] text empty)

  -- Texts that are hashed one after the other.
  abbrev pub hash_all : Context → List String → Context
  hash_all c [] = c
  hash_all c (t ∷ ts) = hash_all (hash c t).1 ts

  -- Each text that is hashed takes the place of those before.
  pub hash_all-Holds :
      (c : Context) (t : String) (ts : List String) → Holds (hash_all c (t ∷ ts)) (last t ts ∷ [])
  hash_all-Holds c t [] = (hash-Holds c t).1
  hash_all-Holds c t (u ∷ us) = hash_all-Holds (hash c t).1 u us
