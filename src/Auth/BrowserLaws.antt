-- ===== src/Auth/BrowserLaws.antt =====
-- apps/broker/src/auth.ts: what the pairing file says of a browser, and which signatures are taken.
use tabgrant.Common.{
  ℕ, String, Bool, true, ◌&&◌, some, ◌===◌, Bool-cases, ◌≡◌, ◌↔◌, refl, ap, inl, inr, arith,
  ===_iff,
}
use tabgrant.Protocol.Platform.{Platform}
use tabgrant.Protocol.Text.{digest_schema}
use tabgrant.Auth.Browser.{
  public_key_schema, BrowserAuthStart, start_schema, key_json, public_key_fingerprint,
  BrowserPairing, PairingFile, stored, pairing_schema, persist_approved_browser_pairing,
  is_paired_browser_key,
}

abbrev print_of : Platform → BrowserAuthStart → String
print_of p s = p.sha256_hex (key_json p s.public_key)

-- What is stored for a browser.
abbrev pairing_of : Platform → (ℕ → String) → ℕ → BrowserAuthStart → BrowserPairing
pairing_of p iso now s = record {
  extension_id = s.extension_id;
  public_key = s.public_key;
  fingerprint = print_of p s;
  paired_at = iso now;
}

fingerprint_start :
    (p : Platform) (s : BrowserAuthStart)
    → start_schema p s ≡ true
    → public_key_fingerprint p s.public_key ≡ some (print_of p s)
unfolding start_schema public_key_fingerprint
fingerprint_start p s fits =
    let key : public_key_schema s.public_key ≡ true = ground arith in rw key refl

module _ (p : Platform) (is_datetime : String → Bool) (iso : ℕ → String) where
  persisted :
      (now : ℕ) (s : BrowserAuthStart) (file : PairingFile)
      → persist_approved_browser_pairing p is_datetime iso now s ≡ some file
      → (start_schema p s ≡ true) × (stored (pairing_of p iso now s) ≡ file)
  unfolding persist_approved_browser_pairing
  persisted now s file e = elim (Bool-cases (start_schema p s)) [
    | inr bad ↦ absurd (cc (rw bad at e))
    | inl good ↦ (good, cc (rw (good, fingerprint_start p s good) at e))
  ]

  read_stored :
      (s : BrowserAuthStart) (b : BrowserPairing)
      → start_schema p s ≡ true
      → pairing_schema p is_datetime iso b ≡ true
      → is_paired_browser_key p is_datetime iso (stored b) s
        ≡ some ((b.extension_id === s.extension_id) && (b.fingerprint === print_of p s))
  unfolding is_paired_browser_key
  read_stored s b fits good = elim (Bool-cases (b.extension_id === s.extension_id)) [
    | inl same ↦ rw (fits, good, same, fingerprint_start p s fits) refl
    | inr other ↦ rw (fits, good, other) refl
  ]

module _ (p : Platform) (is_datetime : String → Bool) (iso : ℕ → String)
    (digest : (text : String) → digest_schema (p.sha256_hex text) ≡ true)
    (dates : (n : ℕ) → is_datetime (iso n) ≡ true) where
  -- The pairing that is stored fits its schema.
  pairing_of-schema :
      (now : ℕ) (s : BrowserAuthStart)
      → start_schema p s ≡ true
      → pairing_schema p is_datetime iso (pairing_of p iso now s) ≡ true
  unfolding pairing_schema start_schema
  pairing_of-schema now s fits =
      let a = digest (key_json p s.public_key) in let b = dates now in ground arith

  -- After a browser's approved pairing is stored, a browser with a sound start is paired exactly when it has
  -- the extension's identifier and the key's fingerprint, if SHA-256 digests are 64 hexadecimal digits and
  -- the clock's texts are dates.
  pub is_paired-persist_iff :
      (now : ℕ) (s t : BrowserAuthStart) (file : PairingFile)
      → persist_approved_browser_pairing p is_datetime iso now s ≡ some file
      → start_schema p t ≡ true
      → (is_paired_browser_key p is_datetime iso file t ≡ some true) ↔ (
          (s.extension_id ≡ t.extension_id)
          × (public_key_fingerprint p s.public_key ≡ public_key_fingerprint p t.public_key))
  is_paired-persist_iff now s t file kept fits =
      let (good, is) = persisted p is_datetime iso now s file kept in
      let reads : is_paired_browser_key p is_datetime iso file t
          ≡ some ((s.extension_id === t.extension_id) && (print_of p s === print_of p t)) =
        rw (← is) (read_stored p is_datetime iso t _ fits (pairing_of-schema now s good)) in
      let same = ===_iff s.extension_id t.extension_id in
      let print = ===_iff (print_of p s) (print_of p t) in
      rw (reads, fingerprint_start p s good, fingerprint_start p t fits)
        (
          (λ yes.
              let both : ((s.extension_id === t.extension_id) && (print_of p s === print_of p t))
                  ≡ true =
                cc in
              (same.0 (ground arith), ap some (print.0 (ground arith)))),
          (λ (a, b). let c : print_of p s ≡ print_of p t = cc in rw (same.1 a, print.1 c) refl),
        )
