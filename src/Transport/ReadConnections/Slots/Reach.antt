-- ===== src/Transport/ReadConnections/Slots/Reach.antt =====
-- All that can happen to one connection, in any order, and what stays true of its slots.
use open_mcc_manager.Prelude.{
  ℕ, ◌≡◌, refl, ap, false, some, [], arith, get_elem?, times_in, count_if,
}
use open_mcc_manager.Transport.Limiter.{Limiter, create_channel_limiter}
use open_mcc_manager.Transport.Limiter.Line.{}
use open_mcc_manager.Transport.ReadConnections.{
  requested, opened, Answer, Op, Lease, Connection, settle, open_stream, end_stream, expire, read,
  run_admitted, give_up_lease, close_down, add_lease, retire, How, ConnectionState,
}
use open_mcc_manager.Transport.ReadConnections.Slots.{IsSound}
use open_mcc_manager.Transport.ReadConnections.Slots.Steps.{
  settle-IsSound, end_stream-IsSound, open_stream-IsSound, run_admitted-IsSound,
}
use open_mcc_manager.Transport.ReadConnections.Slots.Calls.{
  same-IsSound, expire-IsSound, close_down-IsSound, read-IsSound, give_up_lease-IsSound,
}

-- What can happen to a connection. A read needs a lease; an answer or a stream comes for a command
-- that was sent; a stream that was opened can end; the others are timers, calls and the transport.
pub data Step (limit : ℕ) (c : Connection) : Connection → Type 0 where
  reads :
      (lease : ℕ) (l : Lease)
      → get_elem? c.leases lease ≡ some l
      → Step limit c (read limit lease l c)
  admits : Step limit c (run_admitted c)
  answers :
      (id : ℕ) (a : Answer) (o : Op)
      → get_elem? c.ops id ≡ some o
      → o.state ≡ requested
      → Step limit c (settle id a (some o) c)
  streams :
      (id : ℕ) (o : Op)
      → get_elem? c.ops id ≡ some o
      → o.state ≡ requested
      → Step limit c (open_stream id (some o) c)
  ends :
      (id : ℕ) (o : Op)
      → get_elem? c.ops id ≡ some o
      → o.state ≡ opened
      → Step limit c (end_stream id (some o) c)
  expires : (lease : ℕ) → Step limit c (expire lease c)
  lets_go : (lease : ℕ) → Step limit c (give_up_lease lease c)
  is_leased : c.closed ≡ false → Step limit c (add_lease c)
  retires : Step limit c (retire c)
  shuts : (how : How) → c.closed ≡ false → Step limit c (close_down how c)
  turns : (state : ConnectionState) → Step limit c (record c { transport = state })

-- A connection as `install` makes it.
pub record IsNew (c : Connection) : Type 0 where
  pub idle : c.limiter ≡ create_channel_limiter
  pub none_admitted : c.admitted ≡ []
  pub no_ops : c.ops ≡ []
  pub is_open : c.closed ≡ false
  pub not_ended : c.ended_by ≡ []

pub data Lives (limit : ℕ) : Connection → Type 0 where
  installed : {c : Connection} → IsNew c → Lives limit c
  later : {c d : Connection} → Lives limit c → Step limit c d → Lives limit d

new-IsSound : (limit : ℕ) (c : Connection) → IsNew c → IsSound limit c
unfolding get_elem? times_in count_if
new-IsSound limit c n = record {
  count = ground (arith, n);
  fits = λ j.
      rw (n.no_ops, n.none_admitted)
        (ground (arith, ap (λ (l : Limiter). times_in j l.waiting) n.idle));
}

Step-IsSound : (limit : ℕ) {c d : Connection} → Step limit c d → IsSound limit c → IsSound limit d
unfolding add_lease retire
Step-IsSound limit {c} (reads lease l e) s = read-IsSound limit lease c s l
Step-IsSound limit {c} admits s = run_admitted-IsSound limit c s
Step-IsSound limit {c} (answers id a o here asked) s = settle-IsSound limit id a c here asked s
Step-IsSound limit {c} (streams id o here asked) s = open_stream-IsSound limit id c here asked s
Step-IsSound limit {c} (ends id o here is_open) s = end_stream-IsSound limit id c here is_open s
Step-IsSound limit {c} (expires lease) s = expire-IsSound limit lease c s
Step-IsSound limit {c} (lets_go lease) s = give_up_lease-IsSound limit lease c s
Step-IsSound limit {c} (is_leased e) s = same-IsSound limit c _ refl refl refl s
Step-IsSound limit {c} retires s = same-IsSound limit c _ refl refl refl s
Step-IsSound limit {c} (shuts how e) s = close_down-IsSound limit how c s
Step-IsSound limit {c} (turns state) s = same-IsSound limit c _ refl refl refl s

-- Whatever readers, timers and the host do, in any order: the slots counted are those that an
-- operation holds and those granted to one whose call is due, never more than the limit, and nobody
-- waits while one is free. A read that is not settled stands exactly once in the line, among the
-- grants or among the holders; a read that was given up is in the line no more, and one that was
-- settled holds a slot only while its stream flows.
pub Lives-IsSound : {limit : ℕ} {c : Connection} → Lives limit c → IsSound limit c
Lives-IsSound (installed n) = new-IsSound _ _ n
Lives-IsSound (later r st) = Step-IsSound _ st (Lives-IsSound r)
