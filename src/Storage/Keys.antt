-- ===== src/Storage/Keys.antt =====
-- keys.go: EnsureSSHKeyPair on the two files of the key pair. A key is its text; ssh, ed25519 and pem
-- are a parameter. writeFileAtomic puts the whole content in place or leaves the file.
use ssh_gate.Prelude.{
  Bool, false, Option, none, some, Text, text_beq, if◌then◌else◌, ◌≡◌, ◌++◌, codes, trim_last,
}

pub data KeyFile : Type 0 where
  missing unreadable : KeyFile
  holds : Text → KeyFile

pub record KeyPair : Type 0 where
  pub private_file : KeyFile
  pub public_file : KeyFile

-- The calls of package ssh: ParsePrivateKey with PublicKey and MarshalAuthorizedKey, GenerateKey with
-- MarshalPrivateKey and the PEM encoding, and NewSignerFromKey on the same key. What was marshalled
-- parses to the same key.
pub record KeyLibrary : Type 0 where
  pub parse_private : Text → Option Text
  pub generate : Option Text
  pub new_signer : Text → Option Text
  pub parse_generated :
      (pem line : Text)
      → generate ≡ some pem
      → new_signer pem ≡ some line
      → parse_private pem ≡ some line

-- formatPublicKey, on what MarshalAuthorizedKey returns.
abbrev pub format_public_key : Text → Text
format_public_key line = trim_last line 10 ++ codes " ssh-gate"

abbrev pub holds_text : KeyFile → Text → Bool
holds_text missing text = false
holds_text unreadable text = false
holds_text (holds cur) text = text_beq cur text

-- Behind the signer: the public file follows the private key. `writes` is whether writeFileAtomic
-- succeeds.
abbrev pub ensure_public : Bool → Text → KeyPair → KeyPair × Option Text
ensure_public writes line d =
    let pub_key = format_public_key line in
    if holds_text d.public_file pub_key
    then (d, some pub_key)
    else if writes
    then (record d { public_file = holds pub_key }, some pub_key)
    else (d, none)

module _ (lib : KeyLibrary) (writes_private writes_public : Bool) where
  -- A signer, or an error.
  abbrev pub with_signer : Option Text → KeyPair → KeyPair × Option Text
  with_signer none d = (d, none)
  with_signer (some line) d = ensure_public writes_public line d

  abbrev pub new_key : Option Text → KeyPair → KeyPair × Option Text
  new_key none d = (d, none)
  new_key (some pem) d =
      if writes_private
      then with_signer (lib.new_signer pem) (record d { private_file = holds pem })
      else (d, none)

  -- EnsureSSHKeyPair, by what reading the private key gives.
  abbrev pub ensure_private : KeyFile → KeyPair → KeyPair × Option Text
  ensure_private unreadable d = (d, none)
  ensure_private (holds text) d = with_signer (lib.parse_private text) d
  ensure_private missing d = new_key lib.generate d

  unfoldable pub ensure_ssh_key_pair : KeyPair → KeyPair × Option Text
  ensure_ssh_key_pair d = ensure_private d.private_file d
