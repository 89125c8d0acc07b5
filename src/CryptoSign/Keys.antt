-- ===== src/CryptoSign/Keys.antt =====
-- The files of a pair of keys, and the test of a signature (crypto_sign.cpp).
use myblockchain.Prelude.{
  ◌≡◌, ◌≢◌, ◌↔◌, refl, Bool, true, false, not, some, if◌then◌else◌, String, string_key, arith,
  Bool-cases, inl, inr, sym, ◌∙◌, ap,
}
use myblockchain.CryptoSign.{
  OpenSsl, Verdict, CryptoSign, is_nonzero, rsa_decrypt, Files, write_file, Attempts,
  generate_key_files, open_public_key, open_private_key, crypto_sign,
}

nonzero : (v : Verdict) → is_nonzero v ≡ true → v ≢ Verdict.refused
nonzero v h e = ground (arith, h, ap is_nonzero e)

not_refused : (v : Verdict) → v ≢ Verdict.refused → is_nonzero v ≡ true
not_refused Verdict.accepted other = refl
not_refused Verdict.refused other = absurd (other refl)
not_refused Verdict.error other = refl

decided :
    {A : Type 0} (begun taken : Bool) (verdict : Verdict) (x y z : A)
    → let answer : Bool × A =
        if begun then (if taken then (is_nonzero verdict, x) else (false, y)) else (false, z) in
      (answer.0 ≡ true) ↔ ((begun ≡ true) × (taken ≡ true) × (verdict ≢ Verdict.refused))
decided true true verdict x y z =
    (λ h. (refl, refl, nonzero verdict h), λ h. not_refused verdict h.2)
decided true false verdict x y z = (λ h. ground (arith, h), λ h. h.1)
decided false taken verdict x y z = (λ h. ground (arith, h), λ h. h.0)

-- A call that has to succeed for the whole to succeed.
peel :
    {A : Type 0} (b : Bool) (x r : A) (q : Bool × A)
    → let p : Bool × A = if not b then (false, x) else q in
      p.0 ≡ true → (q.0 ≡ true → q.1 ≡ r) → p.1 ≡ r
peel true x r q h k = k h
peel false x r q h k = ground (arith, h)

module _ (ssl : OpenSsl) where
  write_file-here :
      (files : Files ssl) (name : String) (file : ssl.File)
      → write_file ssl files name file name ≡ some file
  write_file-here files name file = rw ((string_key.beq_iff name name).1 refl) refl

  write_file-there :
      (files : Files ssl) (name other : String) (file : ssl.File)
      → other ≢ name
      → write_file ssl files name file other ≡ files other
  write_file-there files name other file apart = elim (Bool-cases (string_key.beq name other)) [
    | inl same ↦ absurd (apart (sym ((string_key.beq_iff name other).0 same)))
    | inr no_match ↦ rw no_match refl
  ]

  finished :
      (try : Attempts) (rsa : ssl.Rsa) (pub_keyfile pri_keyfile password : String)
      (files : Files ssl)
      → (generate_key_files ssl try rsa pub_keyfile pri_keyfile password files).0 ≡ true
      → (generate_key_files ssl try rsa pub_keyfile pri_keyfile password files).1
        ≡ write_file ssl
            (write_file ssl
              (write_file ssl
                (write_file ssl files pub_keyfile ssl.empty_file)
                pub_keyfile
                (ssl.write_public rsa))
              pri_keyfile
              ssl.empty_file)
            pri_keyfile
            (ssl.write_private rsa password)
  unfolding generate_key_files
  finished try rsa pub_keyfile pri_keyfile password files h = peel try.bio_new _ _ _ h (λ h1.
      peel try.write_filename _ _ _ h1 (λ h2.
        peel try.pem_public _ _ _ h2 (λ h3.
          peel try.bio_new_file _ _ _ h3 (λ h4. peel try.pem_private _ _ _ h4 (λ h5. refl)))))

  -- No other file is touched.
  pub generate_key_files-other :
      (try : Attempts) (rsa : ssl.Rsa) (pub_keyfile pri_keyfile password : String)
      (files : Files ssl) (other : String)
      → (generate_key_files ssl try rsa pub_keyfile pri_keyfile password files).0 ≡ true
      → other ≢ pub_keyfile
      → other ≢ pri_keyfile
      → (generate_key_files ssl try rsa pub_keyfile pri_keyfile password files).1 other
        ≡ files other
  generate_key_files-other try rsa pub_keyfile pri_keyfile password files other h not_pub not_pri =
      let created = write_file ssl files pub_keyfile ssl.empty_file in
      let written = write_file ssl created pub_keyfile (ssl.write_public rsa) in
      let opened = write_file ssl written pri_keyfile ssl.empty_file in
      ap (λ (f : Files ssl). f other) (finished try rsa pub_keyfile pri_keyfile password files h)
      ∙ write_file-there opened pri_keyfile other (ssl.write_private rsa password) not_pri
      ∙ write_file-there written pri_keyfile other ssl.empty_file not_pri
      ∙ write_file-there created pub_keyfile other (ssl.write_public rsa) not_pub
      ∙ write_file-there files pub_keyfile other ssl.empty_file not_pub

  -- When the key files are generated with success under two names, an object that is made from them with
  -- the same password has both keys of the pair.
  pub crypto_sign-generate_key_files :
      (try : Attempts) (rsa : ssl.Rsa) (pub_keyfile pri_keyfile password : String)
      (files : Files ssl) (c : ssl.Context)
      → pub_keyfile ≢ pri_keyfile
      → (generate_key_files ssl try rsa pub_keyfile pri_keyfile password files).0 ≡ true
      → let s =
          crypto_sign ssl c pub_keyfile pri_keyfile password
            (generate_key_files ssl try rsa pub_keyfile pri_keyfile password files).1 in
        (s.pub_key ≡ some (ssl.public_of rsa)) × (s.piv_key ≡ some (ssl.private_of rsa))
  unfolding crypto_sign open_public_key open_private_key
  crypto_sign-generate_key_files try rsa pub_keyfile pri_keyfile password files c apart h =
      let after = (generate_key_files ssl try rsa pub_keyfile pri_keyfile password files).1 in
      let created = write_file ssl files pub_keyfile ssl.empty_file in
      let written = write_file ssl created pub_keyfile (ssl.write_public rsa) in
      let opened = write_file ssl written pri_keyfile ssl.empty_file in
      let all = finished try rsa pub_keyfile pri_keyfile password files h in
      let private_file : after pri_keyfile ≡ some (ssl.write_private rsa password) =
        ap (λ (f : Files ssl). f pri_keyfile) all
        ∙ write_file-here opened pri_keyfile (ssl.write_private rsa password) in
      let public_file : after pub_keyfile ≡ some (ssl.write_public rsa) =
        ap (λ (f : Files ssl). f pub_keyfile) all
        ∙ write_file-there opened pri_keyfile pub_keyfile (ssl.write_private rsa password) apart
        ∙ write_file-there written pri_keyfile pub_keyfile ssl.empty_file apart
        ∙ write_file-here created pub_keyfile (ssl.write_public rsa) in
      (
        rw (open_public_key, public_file, ssl.read-write_public rsa) refl,
        rw (open_private_key, private_file, ssl.read-write_private rsa password) refl,
      )

  -- A signature passes the test exactly when the library takes the message and its answer is not that
  -- the signature is wrong: an error of the library passes too.
  pub rsa_decrypt_lem :
      (message signature : String) (s : CryptoSign ssl)
      → let (begun, c1) = ssl.verify_init (ssl.md_init s.md_context) in
        let (taken, c2) = ssl.verify_update c1 message in
        let (verdict, c3) = ssl.verify_final c2 signature s.pub_key in
        ((rsa_decrypt ssl message signature s).0 ≡ true)
        ↔ ((begun ≡ true) × (taken ≡ true) × (verdict ≢ Verdict.refused))
  unfolding rsa_decrypt
  rsa_decrypt_lem message signature s =
      let c1 = ssl.verify_init (ssl.md_init s.md_context) in
      let c2 = ssl.verify_update c1.1 message in
      let c3 = ssl.verify_final c2.1 signature s.pub_key in decided c1.0 c2.0 c3.0 _ _ _
