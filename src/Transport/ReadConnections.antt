-- ===== src/Transport/ReadConnections.antt =====
-- packages/transport/src/read-connections.ts: one connection to a host that many reads share, with
-- its limiter, its leases and its operations. A lease and an operation are places in the tables of
-- the connection; an operation stands in the sets `ops` of its lease and of its connection, or in
-- neither, which is its field `listed`. What a promise of the limiter calls when it is granted runs
-- later: `admitted` are the operations whose call is still due.
pub mod Slots
pub mod Pool
pub mod Leasing
mod Tests
use open_mcc_manager.Prelude.{
  ℕ, ◌+◌, Bool, true, false, not, ◌&&◌, ◌||◌, Option, none, some, String, List, [], ◌∷◌, ◌++◌, ◌==◌,
  if◌then◌else◌, str_eq, length, get_elem?, update_at,
}
use open_mcc_manager.Transport.Limiter.{
  Limiter, create_channel_limiter, Acquired, granted, queued, rejected, acquire, release,
}
use open_mcc_manager.Transport.Limiter

pub record ConnectionIdentity : Type 0 where
  pub hostname : String
  pub port : ℕ
  pub username : String
  pub ssh_key_id : String
  pub host_key_fingerprint : String

unfoldable pub same_connection_identity : ConnectionIdentity → ConnectionIdentity → Bool
same_connection_identity a b =
    str_eq a.hostname b.hostname
    && a.port == b.port
    && str_eq a.username b.username
    && str_eq a.ssh_key_id b.ssh_key_id
    && str_eq a.host_key_fingerprint b.host_key_fingerprint

-- `failed` is an error of the host or of the channel, passed on as it is.
pub data ReadError : Type 0 where
  connection_lost queue_expired deadline_passed : ReadError
  failed : String → ReadError

-- How the promise of a read was settled.
pub data Answer : Type 0 where
  resolved : Answer
  failure : ReadError → Answer

pub data OpState : Type 0 where
  in_queue requested opened : OpState

pub data Stream : Type 0 where
  no_stream flowing ended : Stream

pub record Op : Type 0 where
  pub lease : ℕ
  pub aborted : Bool
  pub state : OpState
  pub holds_slot : Bool
  pub settled : Bool
  pub stream : Stream
  pub answer : Option Answer
  pub listed : Bool

pub record Lease : Type 0 where
  pub expired : Bool
  pub released : Bool
  pub timer : Bool

pub data ConnectionState : Type 0 where
  disconnected connecting ready degraded broken : ConnectionState

pub data How : Type 0 where
  end destroy : How

-- A timer is armed or not. `ended_by` are the calls that ended the transport.
pub record Connection : Type 0 where
  pub key : String
  pub entry : ℕ
  pub transport : ConnectionState
  pub ended_by : List How
  pub identity : ConnectionIdentity
  pub ready_at : ℕ
  pub limiter : Limiter
  pub admitted : List ℕ
  pub leases : List Lease
  pub ops : List Op
  pub retired : Bool
  pub closed : Bool
  pub idle_timer : Bool
  pub hard_timer : Bool

abbrev pub is_ready : ConnectionState → Bool
is_ready ready = true
is_ready _ = false

-- `connection.limiter.release()`: the operation at the head of the line gets the slot.
given_to : Option ℕ × Limiter → Connection → Connection
given_to (none, l) c = record c { limiter = l }
given_to (some id, l) c = record c { limiter = l; admitted = c.admitted ++ id ∷ [] }

unfoldable pub release_slot : Connection → Connection
unfolding given_to
release_slot c = given_to (release c.limiter) c

abbrev pub unlisted : Op → Op
unlisted o = record o { listed = false; holds_slot = false }

unfoldable pub finish_op : ℕ → Op → Connection → Connection
finish_op id o c =
    let c' = record c { ops = update_at id unlisted c.ops } in
    if o.holds_slot then release_slot c' else c'

abbrev pub cut : Stream → Stream
cut no_stream = no_stream
cut _ = ended

-- The reader is told unless it was, the wait in the line is left, and a stream is destroyed.
abbrev pub rejected_with : ReadError → Op → Op
rejected_with e o = record o {
  settled = true;
  answer = if o.settled then o.answer else some (failure e);
  aborted = true;
  stream = cut o.stream;
}

unfoldable pub abandon_op : ℕ → ReadError → Option Op → Connection → Connection
unfolding finish_op
abandon_op id e none c = c
abandon_op id e (some o) c = finish_op id o (record c {
  ops = update_at id (rejected_with e) c.ops;
  limiter = Limiter.abandon id c.limiter;
})

unfoldable pub abandon : ℕ → ReadError → Connection → Connection
unfolding abandon_op
abandon id e c = abandon_op id e (get_elem? c.ops id) c

unfoldable pub abandon_each : List ℕ → ReadError → Connection → Connection
abandon_each [] e c = c
abandon_each (id ∷ ids) e c = abandon_each ids e (abandon id e c)

-- The places of the operations that a test picks, in the order of the set.
unfoldable pub places : (Op → Bool) → ℕ → List Op → List ℕ
places test i [] = []
places test i (o ∷ os) = if test o then i ∷ places test (i + 1) os else places test (i + 1) os

abbrev pub ops_of : Connection → List ℕ
ops_of c = places (λ o. o.listed) 0 c.ops

abbrev pub lease_ops : ℕ → Connection → List ℕ
lease_ops lease c = places (λ o. o.listed && o.lease == lease) 0 c.ops

-- What `shutDown` does to the connection itself.
unfoldable pub close_down : How → Connection → Connection
close_down how c =
    let c' = record c { closed = true; idle_timer = false; hard_timer = false } in
    let c'' = abandon_each (ops_of c') connection_lost c' in
    record c'' { ended_by = c''.ended_by ++ how ∷ [] }

-- One operation of a lease at the deadline: one that waits leaves the line, any other retires the
-- connection and is given up.
unfoldable pub expire_op : ℕ → Option Op → Connection → Connection
expire_op id none c = c
expire_op id (some o) c = elim o.state [
  | in_queue ↦ abandon id queue_expired c
  | _ ↦ abandon id deadline_passed (record c { retired = true })
]

unfoldable pub expire_each : List ℕ → Connection → Connection
expire_each [] c = c
expire_each (id ∷ ids) c = expire_each ids (expire_op id (get_elem? c.ops id) c)

unfoldable pub expire : ℕ → Connection → Connection
expire lease c =
    let c' = record c { leases = update_at lease (λ l. record l { expired = true }) c.leases } in
    expire_each (lease_ops lease c') c'

pub data Begun : Type 0 where
  refused : ReadError → Begun
  begun : ℕ → Begun

abbrev pub new_op : ℕ → Op
new_op lease = record {
  lease = lease;
  aborted = false;
  state = in_queue;
  holds_slot = false;
  settled = false;
  stream = no_stream;
  answer = none;
  listed = true;
}

unfoldable pub begin : ℕ → Lease → Connection → Begun × Connection
begin id lease c =
    if lease.released || c.closed
    then (refused connection_lost, c)
    else if lease.expired
    then (refused queue_expired, c)
    else (begun (length c.ops), record c { ops = c.ops ++ new_op id ∷ [] })

-- `limiter.acquire(signal)`, and what its promise calls when it is granted.
acquired : ℕ → Acquired × Limiter → Connection → Connection
acquired id (granted, l) c = record c { limiter = l; admitted = c.admitted ++ id ∷ [] }
acquired id (queued, l) c = record c { limiter = l }
acquired id (rejected, l) c = record c { limiter = l }

unfoldable pub when_admitted : ℕ → ℕ → Connection → Connection
unfolding acquired
when_admitted limit id c = acquired id (acquire limit false id c.limiter) c

admit_begun : ℕ → Begun × Connection → Connection
admit_begun limit (refused e, c) = c
admit_begun limit (begun id, c) = when_admitted limit id c

-- What `exec` and `forward` do before they return.
unfoldable pub read : ℕ → ℕ → Lease → Connection → Connection
unfolding admit_begun begin when_admitted
read limit id lease c = admit_begun limit (begin id lease c)

-- The call that is due for an operation: one that was settled meanwhile gives its slot on.
call_run : ℕ → Option Op → Connection → Connection
call_run id none c = c
call_run id (some o) c = if o.settled then release_slot c else record c {
  ops = update_at id (λ o. record o { holds_slot = true; state = requested }) c.ops;
}

call_first : List ℕ → Connection → Connection
call_first [] c = c
call_first (id ∷ ids) c = call_run id (get_elem? c.ops id) (record c { admitted = ids })

unfoldable pub run_admitted : Connection → Connection
unfolding call_first call_run
run_admitted c = call_first c.admitted c

unfoldable pub outcome_of : Connection → String → ReadError
outcome_of c error =
    if c.closed || not (is_ready c.transport) then connection_lost else failed error

-- The host answers a command, or refuses a channel: the first answer settles the read.
unfoldable pub settle : ℕ → Answer → Option Op → Connection → Connection
unfolding finish_op
settle id a none c = c
settle id a (some o) c =
    if o.settled
    then c
    else finish_op id o
        (record c { ops = update_at id (λ o. record o { settled = true; answer = some a }) c.ops })

-- The host opens a stream; for a read that was given up it is closed again.
unfoldable pub open_stream : ℕ → Option Op → Connection → Connection
open_stream id none c = c
open_stream id (some o) c = if o.settled then c else record c {
  ops =
      update_at id
        (λ o. record o { settled = true; state = opened; stream = flowing; answer = some resolved })
        c.ops;
}

-- A stream ends, by its reader or by the host.
unfoldable pub end_stream : ℕ → Option Op → Connection → Connection
unfolding finish_op
end_stream id none c = c
end_stream id (some o) c =
    finish_op id o (record c { ops = update_at id (λ o. record o { stream = cut o.stream }) c.ops })

-- What `release` of a reader does to the connection itself.
release_lease : ℕ → Option Lease → Connection → Connection
release_lease id none c = c
release_lease id (some l) c =
    if l.released
    then c
    else let c' = record c {
      leases = update_at id (λ l. record l { released = true; timer = false }) c.leases;
    } in
      abandon_each (lease_ops id c') connection_lost c'

unfoldable pub give_up_lease : ℕ → Connection → Connection
unfolding release_lease
give_up_lease id c = release_lease id (get_elem? c.leases id) c

-- What `checkout` does to the connection itself; the lease is the last of the table.
unfoldable pub add_lease : Connection → Connection
add_lease c = record c {
  idle_timer = false;
  leases = c.leases ++ record { expired = false; released = false; timer = true } ∷ [];
}

unfoldable pub retire : Connection → Connection
retire c = record c { retired = true }
