-- ===== src/Storage/KeyPairs.antt =====
-- keys.go: what EnsureSSHKeyPair leaves on the disk.
use ssh_gate.Prelude.{
  Bool, true, Option, none, some, Text, text_beq_iff, ◌≡◌, ◌≢◌, refl, sym, ap, ◌∙◌, inl, inr,
  Bool-cases, Option-cases, arith,
}
use ssh_gate.Storage.Keys.{
  KeyFile, missing, unreadable, holds, KeyPair, KeyLibrary, format_public_key, holds_text,
  ensure_public, with_signer, new_key, ensure_private, ensure_ssh_key_pair,
}

-- The two files and the key that was returned belong together.
abbrev pub Belongs : KeyLibrary → KeyPair → Text → Type 0
Belongs lib d key =
    (pem : Text) × (line : Text) × (d.private_file ≡ holds pem)
    × (lib.parse_private pem ≡ some line)
    × (key ≡ format_public_key line)
    × (d.public_file ≡ holds key)

holds_text-holds : (f : KeyFile) (text : Text) → holds_text f text ≡ true → f ≡ holds text
holds_text-holds missing text h = ground arith
holds_text-holds unreadable text h = ground arith
holds_text-holds (holds cur) text h = ap holds ((text_beq_iff cur text).0 h)

some_same : (a b : Text) → some a ≡ some b → a ≡ b
some_same a b h = cc

not_some : (b : Text) → none ≢ some b
not_some b h = ground arith

private_file-ensure_public :
    (writes : Bool) (line : Text) (d : KeyPair)
    → (ensure_public writes line d).0.private_file ≡ d.private_file
private_file-ensure_public writes line d = ground arith

ensure_public_ok :
    (writes : Bool) (line key : Text) (d : KeyPair)
    → (ensure_public writes line d).1 ≡ some key
    → (format_public_key line ≡ key)
      × ((ensure_public writes line d).0.public_file ≡ holds (format_public_key line))
ensure_public_ok writes line key d h =
    elim (Bool-cases (holds_text d.public_file (format_public_key line))) [
      | inl held ↦ rw held (
        some_same _ key (rw held at h),
        holds_text-holds d.public_file (format_public_key line) held,
      )
      | inr other ↦ elim (Bool-cases writes) [
        | inl w ↦ rw (other, w) (some_same _ key (rw (other, w) at h), refl)
        | inr w ↦ absurd (not_some key (rw (other, w) at h))
      ]
    ]

module _ (lib : KeyLibrary) (writes_private writes_public : Bool) where
  private_file-with_signer :
      (signer : Option Text) (d : KeyPair)
      → (with_signer lib writes_private writes_public signer d).0.private_file ≡ d.private_file
  private_file-with_signer none d = refl
  private_file-with_signer (some line) d = private_file-ensure_public writes_public line d

  private_file-ensure_private :
      (f : KeyFile) (d : KeyPair)
      → f ≢ missing
      → (ensure_private lib writes_private writes_public f d).0.private_file ≡ d.private_file
  private_file-ensure_private missing d h = absurd (h refl)
  private_file-ensure_private unreadable d h = refl
  private_file-ensure_private (holds text) d h = private_file-with_signer (lib.parse_private text) d

  -- A private key that is there is never replaced, not even where it cannot be read or parsed.
  pub private_file-ensure_ssh_key_pair :
      (d : KeyPair)
      → d.private_file ≢ missing
      → (ensure_ssh_key_pair lib writes_private writes_public d).0.private_file ≡ d.private_file
  unfolding ensure_ssh_key_pair
  private_file-ensure_ssh_key_pair d h = private_file-ensure_private d.private_file d h

  ensure_public-Belongs :
      (pem line key : Text) (d : KeyPair)
      → d.private_file ≡ holds pem
      → lib.parse_private pem ≡ some line
      → (ensure_public writes_public line d).1 ≡ some key
      → Belongs lib (ensure_public writes_public line d).0 key
  ensure_public-Belongs pem line key d there parsed h =
      let (same, written) = ensure_public_ok writes_public line key d h in
      (
        pem,
        line,
        private_file-ensure_public writes_public line d ∙ there,
        parsed,
        sym same,
        written ∙ ap holds same,
      )

  new_key-Belongs :
      (key : Text) (made : Option Text) (d : KeyPair)
      → lib.generate ≡ made
      → (new_key lib writes_private writes_public made d).1 ≡ some key
      → Belongs lib (new_key lib writes_private writes_public made d).0 key
  new_key-Belongs key none d e h = absurd (not_some key h)
  new_key-Belongs key (some pem) d e h = elim (Bool-cases writes_private) [
    | inr w ↦ absurd (not_some key (rw w at h))
    | inl w ↦ elim (Option-cases (lib.new_signer pem)) [
      | inl bad ↦ absurd (not_some key (rw (w, bad) at h))
      | inr (line, good) ↦
          rw (w, good)
            (ensure_public-Belongs pem line key (record d { private_file = holds pem }) refl
              (lib.parse_generated pem line e good) (rw (w, good) at h))
    ]
  ]

  -- A key that is returned is the public half of the private key on the disk, whether it was there or
  -- is new, and the public file holds it.
  ensure_ssh_key_pair-Belongs :
      (key : Text) (d : KeyPair)
      → (ensure_ssh_key_pair lib writes_private writes_public d).1 ≡ some key
      → Belongs lib (ensure_ssh_key_pair lib writes_private writes_public d).0 key
  unfolding ensure_ssh_key_pair
  ensure_ssh_key_pair-Belongs key d h = go d.private_file refl h
    where
      go :
          (f : KeyFile)
          → d.private_file ≡ f
          → (ensure_private lib writes_private writes_public f d).1 ≡ some key
          → Belongs lib (ensure_private lib writes_private writes_public f d).0 key
      go missing e h' = new_key-Belongs key lib.generate d refl h'
      go unreadable e h' = absurd (not_some key h')
      go (holds pem) e h' = elim (Option-cases (lib.parse_private pem)) [
        | inl bad ↦ absurd (not_some key (rw bad at h'))
        | inr (line, good) ↦ rw good (ensure_public-Belongs pem line key d e good (rw good at h'))
      ]

  -- On files that belong together nothing is written.
  ensure_ssh_key_pair-again :
      (key : Text) (d : KeyPair)
      → Belongs lib d key
      → ensure_ssh_key_pair lib writes_private writes_public d ≡ (d, some key)
  unfolding ensure_ssh_key_pair
  ensure_ssh_key_pair-again key d (pem, line, there, parsed, same, held) =
      rw (there, parsed, held, same)
        (rw ((text_beq_iff (format_public_key line) (format_public_key line)).1 refl))

-- A key that EnsureSSHKeyPair returns is the public half of the private key that is then on the
-- disk, whether that was there before or is new, and the public file holds it; every later call
-- returns the same key and changes neither file, whether or not the disk could be written.
pub ensure_ssh_key_pair-stable :
    (lib : KeyLibrary) (writes_private writes_public later_private later_public : Bool) (key : Text)
    (d : KeyPair)
    → (ensure_ssh_key_pair lib writes_private writes_public d).1 ≡ some key
    → let d' = (ensure_ssh_key_pair lib writes_private writes_public d).0 in
      Belongs lib d' key × (ensure_ssh_key_pair lib later_private later_public d' ≡ (d', some key))
ensure_ssh_key_pair-stable lib writes_private writes_public later_private later_public key d h =
    let whole = ensure_ssh_key_pair-Belongs lib writes_private writes_public key d h in
    (whole, ensure_ssh_key_pair-again lib later_private later_public key _ whole)
