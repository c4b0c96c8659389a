-- ===== src/Service/Sockets.antt =====
-- notify.go and journal_linux.go: the socket of the service manager, and whether stderr is the journal.
use ssh_gate.Prelude.{
  ℕ, ◌≡◌, ◌↔◌, Bool, true, false, [], ◌∷◌, ◌++◌, Option, none, some, Text, codes, text_beq,
  text_beq_iff, ◌==◌, if◌then◌else◌,
}
use ssh_gate.Syntax.Decimal.{itoa}

-- sdNotify: the name that it dials; a name with an "@" in front is an abstract socket.
unfoldable pub socket_name : Text → Option Text
socket_name [] = none
socket_name (c ∷ name) = some (if c == b'@' then 0 ∷ name else c ∷ name)

-- What a call of sdNotify does: nothing, an error of the dial or of the write, or a message sent.
pub data Notified : Type 0 where
  silent dial_failed write_failed : Notified
  delivered : Text → Text → Notified

abbrev pub deliver : Text → Bool → Bool → Text → Notified
deliver name dials writes msg =
    if dials then (if writes then delivered name msg else write_failed) else dial_failed

unfoldable pub sd_notify : Text → Bool → Bool → Text → Notified
unfolding socket_name
sd_notify notify_socket dials writes msg = elim (socket_name notify_socket) [
  | none ↦ silent
  | some name ↦ deliver name dials writes msg
]

-- stderrIsJournal; `stat` is the device and the inode of stderr.
abbrev pub stream_name : ℕ → ℕ → Text
stream_name dev ino = itoa dev ++ (codes ":" ++ itoa ino)

abbrev pub is_stream : Text → Option (ℕ × ℕ) → Bool
is_stream v none = false
is_stream v (some (dev, ino)) = text_beq v (stream_name dev ino)

unfoldable pub stderr_is_journal : Text → Option (ℕ × ℕ) → Bool
stderr_is_journal [] stat = false
stderr_is_journal (c ∷ v) stat = is_stream (c ∷ v) stat

-- stderr counts as the journal exactly if JOURNAL_STREAM names its device and inode.
pub stderr_is_journal_iff :
    (c : ℕ) (v : Text) (dev ino : ℕ)
    → (stderr_is_journal (c ∷ v) (some (dev, ino)) ≡ true) ↔ (c ∷ v ≡ stream_name dev ino)
unfolding stderr_is_journal
stderr_is_journal_iff c v dev ino = text_beq_iff (c ∷ v) (stream_name dev ino)
