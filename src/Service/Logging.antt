-- ===== src/Service/Logging.antt =====
-- main.go and journal.go: setupLogging, and where a log line goes. A logger of zerolog hands on the
-- lines of its level and above; the access logger is set to no level.
use ssh_gate.Prelude.{
  ℕ, ◌≤◌, ◌<◌, ◌^◌, ◌≡◌, refl, leb, Bool, true, false, [], ◌∷◌, Option, none, some, Text, codes,
  length, trim_last, if◌then◌else◌, arith,
}
use ssh_gate.Syntax.Decimal.{itoa}
use ssh_gate.Config.Values.{LogLevel}
use ssh_gate.Service.Journal.{Level, journal_priority, newline, journal_entry}
use ssh_gate.Service.Reading.{IsLine, read_fields, read_fields-journal_entry}

-- journalWriter with its identifier, or os.Stderr.
pub data Sink : Type 0 where
  journal_writer : Text → Sink
  stderr : Sink

pub record Loggers : Type 0 where
  pub app : Sink
  pub level : LogLevel
  -- `none` is zerolog.Nop.
  pub access : Option Sink

abbrev pub journal_ident : Text
journal_ident = codes "ssh-gate"

abbrev pub journal_access_ident : Text
journal_access_ident = codes "ssh-gate-access"

-- setupLogging; `dials` is whether stderr is the journal and its socket opens.
abbrev pub sink_of : Bool → Text → Sink
sink_of true ident = journal_writer ident
sink_of false ident = stderr

unfoldable pub setup_logging : Bool → LogLevel → Bool → Loggers
setup_logging dials level access = record {
  app = sink_of dials journal_ident;
  level = level;
  access = if access then some (sink_of dials journal_access_ident) else none;
}

-- What a write leaves behind: a datagram to journald, or the line on stderr.
pub data Written : Type 0 where
  datagram : Text → Written
  on_stderr : Text → Written

-- journalWriter.WriteLevel; `sends` is whether the datagram can be sent.
abbrev pub write_level : Sink → Bool → Level → Text → Written
write_level (journal_writer ident) true level p = datagram (journal_entry ident level p)
write_level (journal_writer ident) false level p = on_stderr p
write_level stderr sends level p = on_stderr p

-- The order of the levels.
abbrev pub rank : Level → ℕ
rank Level.trace = 0
rank Level.debug = 1
rank Level.info = 2
rank Level.warn = 3
rank Level.error = 4
rank Level.fatal = 5
rank Level.panic = 6
rank Level.no_level = 7
rank Level.disabled = 8

abbrev pub threshold : LogLevel → ℕ
threshold LogLevel.debug = 1
threshold LogLevel.info = 2
threshold LogLevel.warn = 3
threshold LogLevel.error = 4

-- A line of the service log, or of the access log.
pub data Line : Type 0 where
  service_line : Level → Text → Line
  access_line : Text → Line

abbrev pub write_to : Option Sink → Bool → Text → Option Written
write_to none sends p = none
write_to (some sink) sends p = some (write_level sink sends Level.info p)

unfoldable pub log_line : Loggers → Bool → Line → Option Written
log_line l sends (service_line level p) =
    if leb (threshold l.level) (rank level) then some (write_level l.app sends level p) else none
log_line l sends (access_line p) = write_to l.access sends p

-- The line arrives, whole: on stderr, or in the journal under its priority and identifier.
abbrev pub Arrives : Text → Level → Text → Option Written → Type 0
Arrives ident level p none = ⊥
Arrives ident level p (some (on_stderr q)) = q ≡ p
Arrives ident level p (some (datagram entry)) =
    read_fields 4 entry
    ≡ some (
        (codes "PRIORITY", itoa (journal_priority level))
        ∷ (codes "SYSLOG_IDENTIFIER", ident)
        ∷ (codes "MESSAGE", trim_last p newline)
        ∷ [])

write_level-Arrives :
    (dials sends : Bool) (ident : Text) (level : Level) (p : Text)
    → IsLine ident
    → length p < 2 ^ 64
    → Arrives ident level p (some (write_level (sink_of dials ident) sends level p))
write_level-Arrives true true ident level p h small =
    read_fields-journal_entry ident level p 0 h small
write_level-Arrives true false ident level p h small = refl
write_level-Arrives false sends ident level p h small = refl

-- No line is lost: with or without journald, and when a datagram cannot be sent, a line of the service
-- log arrives exactly if its level is that of LOG_LEVEL or above, so a fatal one always does, and a
-- line of the access log exactly if ACCESS_LOG is on, whatever LOG_LEVEL is. In the journal each is
-- found under its own identifier.
pub log_line-Arrives :
    (dials access sends : Bool) (level : LogLevel) (p : Text)
    → length p < 2 ^ 64
    → let l = setup_logging dials level access in
      (access ≡ true → Arrives journal_access_ident Level.info p (log_line l sends (access_line p)))
      × (access ≡ false → log_line l sends (access_line p) ≡ none)
      × ((at : Level)
          → threshold level ≤ rank at
          → Arrives journal_ident at p (log_line l sends (service_line at p)))
      × ((at : Level) → rank at < threshold level → log_line l sends (service_line at p) ≡ none)
unfolding log_line setup_logging
log_line-Arrives dials access sends level p small = (
  (λ e. rw e (write_level-Arrives dials sends journal_access_ident Level.info p refl small)),
  (λ e. rw e refl),
  (λ at h.
      let passes : leb (threshold level) (rank at) ≡ true = ground arith in
      rw passes (write_level-Arrives dials sends journal_ident at p refl small)),
  (λ at h. let held : leb (threshold level) (rank at) ≡ false = ground arith in rw held refl),
)
