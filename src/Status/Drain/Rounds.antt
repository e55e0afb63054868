-- ===== src/Status/Drain/Rounds.antt =====
-- A journal as a list of lines, which is read in rounds that meet in one line.
use open_mcc_manager.Prelude.{
  ℕ, zero, suc, ◌-◌, ◌≤◌, ◌≡◌, refl, sym, ap, ◌∙◌, String, Bool, true, false, Option, none, some,
  List, [], ◌∷◌, ◌++◌, append-nil, append_assoc, length, length-append, arith, ltb,
}
use open_mcc_manager.Status.Connection.{ConnectionSignal, ConnectionCurrent, changes_from_signals}
use open_mcc_manager.Status.Drain.{
  JournalDrain, journal_max_lines, first_of, within_limit, drain_connection_changes,
}
use open_mcc_manager.Status.Drain.Threading.{
  changes_in, signals_read, IsSteady, drain_connection_changes-signals_read,
}

first_of-length {ℓ} : {A : Type ℓ} (xs ys : List A) → first_of (length xs) (xs ++ ys) ≡ xs
unfolding first_of
first_of-length [] ys = refl
first_of-length (x ∷ xs) ys = ap (λ front. x ∷ front) (first_of-length xs ys)

first_of-append {ℓ} :
    {A : Type ℓ} (xs ys : List A) → first_of (length (xs ++ ys) - length ys) (xs ++ ys) ≡ xs
first_of-append xs ys =
    ap (λ n. first_of n (xs ++ ys)) (ground (arith, length-append xs ys)) ∙ first_of-length xs ys

abbrev first_line {ℓ} : {A : Type ℓ} → List A → Option A → Option A
first_line [] next = next
first_line (line ∷ rest) next = some line

-- `sig next line` is what a line says where the line `next` follows it: a kick may have its reason
-- in the following line.
module _ {Line : Type 0} (sig : Option Line → Line → List ConnectionSignal) where
  -- The signals of lines that `next` follows.
  abbrev pub signals_before : Option Line → List Line → List ConnectionSignal
  signals_before next [] = []
  signals_before next (line ∷ rest) = sig (first_line rest next) line ++ signals_before next rest

  -- The signals of a whole journal.
  abbrev pub signals : List Line → List ConnectionSignal
  signals lines = signals_before none lines

  first_line-append :
      (front : List Line) (line : Line) (back : List Line)
      → first_line (front ++ line ∷ back) none ≡ first_line front (some line)
  first_line-append [] line back = refl
  first_line-append (x ∷ front) line back = refl

  signals-append :
      (front : List Line) (line : Line) (back : List Line)
      → signals (front ++ line ∷ back) ≡ signals_before (some line) front ++ signals (line ∷ back)
  signals-append [] line back = refl
  signals-append (x ∷ front) line back =
      ap (λ (said : List ConnectionSignal). sig (first_line (front ++ line ∷ back) none) x ++ said)
        (signals-append front line back)
      ∙ sym (
          append_assoc (sig (first_line (front ++ line ∷ back) none) x)
            (signals_before (some line) front) (signals (line ∷ back)))
      ∙ ap
          (λ (next : Option Line).
            (sig next x ++ signals_before (some line) front) ++ signals (line ∷ back))
          (first_line-append front line back)

  -- What a round keeps of a reading that is full, and the lines of the later rounds, are all.
  border :
      (front : List Line) (line : Line) (back : List Line)
      → first_of
            (length (signals (front ++ line ∷ [])) - length (signals (line ∷ [])))
            (signals (front ++ line ∷ []))
          ++ signals (line ∷ back)
        ≡ signals (front ++ line ∷ back)
  border front line back =
      ap
        (λ (read : List ConnectionSignal).
          first_of (length read - length (signals (line ∷ []))) read ++ signals (line ∷ back))
        (signals-append front line [])
      ∙ ap (λ (kept : List ConnectionSignal). kept ++ signals (line ∷ back))
          (first_of-append (signals_before (some line) front) (signals (line ∷ [])))
      ∙ sym (signals-append front line back)

  -- The host shows `lines`, from the cursor `at` on, in the `left` rounds that are left: a round
  -- sees what is left, at most 2000 lines of it, or the 2000 lines `front` and one more, at whose
  -- cursor the next round starts.
  pub data Shows (drain : JournalDrain) : ℕ → ℕ → String → List Line → Type 0 where
    ends :
        {left round : ℕ} {at : String} {lines : List Line}
        → drain.leases round ≡ true
        → (drain.exec round (some at)).succeeded ≡ true
        → length lines ≤ journal_max_lines
        → (drain.exec round (some at)).line_count ≡ length lines
        → (drain.exec round (some at)).sighted ≡ signals lines
        → Shows drain (suc left) round at lines
    goes_on :
        {left round : ℕ} {at : String} (c : String) (front : List Line) (line : Line)
        (back : List Line)
        → drain.leases round ≡ true
        → (drain.exec round (some at)).succeeded ≡ true
        → length front ≡ journal_max_lines
        → (drain.exec round (some at)).line_count ≡ suc (length front)
        → (drain.exec round (some at)).sighted ≡ signals (front ++ line ∷ [])
        → (drain.exec round (some at)).last_line ≡ signals (line ∷ [])
        → (drain.exec round (some at)).cursor ≡ some c
        → Shows drain left (suc round) c (line ∷ back)
        → Shows drain (suc left) round at (front ++ line ∷ back)

  module _ (is_cursor : String → Bool) (drain : JournalDrain) where
    signals_read-ends :
        (left round : ℕ) (at : String)
        → drain.leases round ≡ true
        → (drain.exec round (some at)).succeeded ≡ true
        → ltb journal_max_lines (drain.exec round (some at)).line_count ≡ false
        → signals_read is_cursor drain (suc left) round at ≡ (drain.exec round (some at)).sighted
    unfolding signals_read within_limit
    signals_read-ends left round at leased read few =
        ground (arith, leased, read, few, append-nil (drain.exec round (some at)).sighted)

    signals_read-goes_on :
        (left round : ℕ) (at c : String)
        → drain.leases round ≡ true
        → (drain.exec round (some at)).succeeded ≡ true
        → ltb journal_max_lines (drain.exec round (some at)).line_count ≡ true
        → (drain.exec round (some at)).cursor ≡ some c
        → signals_read is_cursor drain (suc left) round at
          ≡ first_of
              (length (drain.exec round (some at)).sighted
                - length (drain.exec round (some at)).last_line)
              (drain.exec round (some at)).sighted
            ++ signals_read is_cursor drain left (suc round) c
    unfolding signals_read within_limit
    signals_read-goes_on left round at c leased read many shown =
        ground (arith, leased, read, many, shown)

    signals_read-signals :
        {left round : ℕ} {at : String} {lines : List Line}
        → Shows drain left round at lines
        → signals_read is_cursor drain left round at ≡ signals lines
    signals_read-signals {left = zero} shows = elim shows [ ]
    signals_read-signals {left = suc left} {round} {at} {lines}
          (ends leased read few counted sighted) =
        signals_read-ends left round at leased read (ground (arith, few, counted)) ∙ sighted
    signals_read-signals {left = suc left} {round} {at}
          (goes_on c front line back leased read long counted sighted last shown later) =
        signals_read-goes_on left round at c leased read (ground (arith, long, counted)) shown
        ∙ cc (sighted, last, signals_read-signals later, border front line back)

-- Where the host shows the lines of a journal within the four rounds of a drain, each round after
-- the first starting again at the line at whose cursor the one before stopped, the drain records
-- what one reading of the whole journal would: no change is lost or told twice at the border of two
-- rounds, also where the reason of a kick stands on the line after the border. Every line is one
-- that parses, every round gets its lease and its command succeeds; the journal refuses no cursor,
-- and the drain starts from one.
pub changes_in-drain_connection_changes :
    {Line : Type 0} (sig : Option Line → Line → List ConnectionSignal) (is_cursor : String → Bool)
    (drain : JournalDrain) (current : ConnectionCurrent) (cursor : String) (lines : List Line)
    → IsSteady is_cursor drain
    → is_cursor cursor ≡ true
    → Shows sig drain 4 0 cursor lines
    → changes_in (drain_connection_changes is_cursor drain current (some cursor)).1
      ≡ changes_from_signals current (signals sig lines)
changes_in-drain_connection_changes sig is_cursor drain current cursor lines steady valid shows =
    drain_connection_changes-signals_read is_cursor drain current cursor steady valid
    ∙ ap (changes_from_signals current) (signals_read-signals sig is_cursor drain shows)
