-- ===== src/Service/Journal.antt =====
-- journal.go: the datagram of a journal entry.
use ssh_gate.Prelude.{ℕ, zero, suc, ◌/◌, ◌%◌, [], ◌∷◌, ◌++◌, Text, codes, length, trim_last}
use ssh_gate.Syntax.Decimal.{itoa}

-- The levels of zerolog.
pub data Level : Type 0 where
  trace debug info warn error fatal panic no_level disabled : Level

-- journalPriority.
abbrev pub journal_priority : Level → ℕ
journal_priority Level.trace = 7
journal_priority Level.debug = 7
journal_priority Level.info = 6
journal_priority Level.warn = 4
journal_priority Level.error = 3
journal_priority Level.fatal = 2
journal_priority Level.panic = 2
journal_priority _ = 6

abbrev pub newline : ℕ
newline = 10

-- The `k` lowest bytes of a number, the lowest first; binary.LittleEndian.AppendUint64 appends 8.
unfoldable pub little_endian : ℕ → ℕ → Text
little_endian zero n = []
little_endian (suc k) n = n % 256 ∷ little_endian k (n / 256)

-- journalEntry.
unfoldable pub journal_entry : Text → Level → Text → Text
journal_entry ident level p =
    let msg = trim_last p newline in
    codes "PRIORITY="
    ++ (itoa (journal_priority level)
        ++ (newline
            ∷ (codes "SYSLOG_IDENTIFIER="
                ++ (ident
                    ++ (newline
                        ∷ (codes "MESSAGE"
                            ++ (newline
                                ∷ (little_endian 8 (length msg) ++ (msg ++ newline ∷ [])))))))))
