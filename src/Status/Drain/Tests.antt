-- ===== src/Status/Drain/Tests.antt =====
-- A journal that is read in two rounds.
use open_mcc_manager.Prelude.{
  ℕ, zero, suc, ◌≡◌, refl, sym, ap, String, true, false, Option, none, some, List, [], ◌∷◌, ◌++◌,
  length, arith,
}
use open_mcc_manager.Status.Connection.{
  ConnectionState, ConnectionSignal, ConnectionCurrent, changes_from_signals,
}
use open_mcc_manager.Status.Drain.{JournalResult, JournalDrain, drain_connection_changes}
use open_mcc_manager.Status.Drain.Threading.{changes_in, IsSteady}
use open_mcc_manager.Status.Drain.Rounds.{
  signals, Shows, ends, goes_on, changes_in-drain_connection_changes,
}

abbrev joined_bot : ConnectionCurrent
joined_bot = record { state = ConnectionState.joined; since = some 0; pid = some "1" }

data Line : Type 0 where
  chat kicked full rejoined : Line

-- A kick has its reason in the line that follows it.
abbrev sig : Option Line → Line → List ConnectionSignal
sig next chat = []
sig (some full) kicked = ConnectionSignal.disconnected 1000 "1" (some "the server is full") ∷ []
sig _ kicked = ConnectionSignal.disconnected 1000 "1" none ∷ []
sig next full = []
sig next rejoined = ConnectionSignal.joined 2000 "2" ∷ []

abbrev chatter : ℕ → List Line
chatter zero = kicked ∷ []
chatter (suc n) = chat ∷ chatter n

length-chatter : (n : ℕ) → length (chatter n) ≡ suc n
length-chatter zero = refl
length-chatter (suc n) = ap suc (length-chatter n)

-- The kick is the last line that the first round keeps, and its reason the line at the border.
abbrev batch : ℕ → JournalResult
batch zero = record {
  succeeded = true;
  says_refused = false;
  line_count = 2001;
  sighted = signals sig (chatter 1999 ++ full ∷ []);
  last_line = signals sig (full ∷ []);
  cursor = some "s=2";
}
batch (suc round) = record {
  succeeded = true;
  says_refused = false;
  line_count = 3;
  sighted = signals sig (full ∷ chat ∷ rejoined ∷ []);
  last_line = signals sig (rejoined ∷ []);
  cursor = some "s=2";
}

abbrev two_rounds : JournalDrain
two_rounds = record { leases = λ round. true; exec = λ round at. batch round }

steady : IsSteady (λ c. true) two_rounds
steady = record { shown = λ round at c e. refl; taken = taken }
  where
    taken : (round : ℕ) (at : Option String) → (batch round).says_refused ≡ false
    taken zero at = refl
    taken (suc n) at = refl

shows : Shows sig two_rounds 4 0 "s=1" (chatter 1999 ++ full ∷ chat ∷ rejoined ∷ [])
shows =
    goes_on "s=2" (chatter 1999) full (chat ∷ rejoined ∷ []) refl refl (length-chatter 1999)
      (sym (ap suc (length-chatter 1999))) refl refl refl (ends refl refl (ground arith) refl refl)

changes_in-drain_connection_changes_example :
    changes_in (drain_connection_changes (λ c. true) two_rounds joined_bot (some "s=1")).1
    ≡ changes_from_signals joined_bot (signals sig (chatter 1999 ++ full ∷ chat ∷ rejoined ∷ []))
changes_in-drain_connection_changes_example =
    changes_in-drain_connection_changes sig (λ c. true) two_rounds joined_bot "s=1"
      (chatter 1999 ++ full ∷ chat ∷ rejoined ∷ []) steady refl shows
