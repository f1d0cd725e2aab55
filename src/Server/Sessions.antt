-- ===== src/Server/Sessions.antt =====
-- The threads of src/server/Session.cpp behind the table of src/server/ServerManager.cpp: each is started
-- with a descriptor by `server_run`, closes it at its end, and then gives up its record. The system
-- may hand out a descriptor again as soon as it is closed.
use hybrid_ftp.Base.{
  ℕ, ◌+◌, ◌-◌, ◌<◌, ◌≡◌, refl, inl, inr, true, false, some, List, [], ◌∷◌, arith, ◌==◌, Bool-cases,
}
use hybrid_ftp.Udp.Socket.{close_descriptor}
use hybrid_ftp.Text.{Text}
use hybrid_ftp.Session.Loop.{behind}
use hybrid_ftp.Server.{
  ClientRecord, ServerState, filled, add_record, remove_record, clients_add, clients_remove,
  all_inactive, server_init, end_session,
}
use hybrid_ftp.Server.Table.{count, is_full, one_for, clients_count}

-- The table, the descriptors of the threads that have not closed theirs, and of those that have closed
-- it and not given up their record.
pub record World : Type 0 where
  pub table : ServerState
  pub serving : List ℕ
  pub closed_ones : List ℕ

-- How often a descriptor stands in a list.
unfoldable pub times : ℕ → List ℕ → ℕ
times x [] = 0
times x (d ∷ ds) = one_for d x + times x ds

-- One of the threads goes on. A step under the lock is one step.
pub data Happens : World → World → Type 0 where
  client_comes :
      (w : World) (fd : ℕ) (ip : Text) (p : ℕ)
      → times fd w.serving ≡ 0
      → is_full w.table.clients ≡ false
      → Happens w (record w { table = (clients_add w.table fd ip p).0; serving = fd ∷ w.serving })
  thread_closes :
      (w : World) (fd : ℕ)
      → 0 < times fd w.serving
      → Happens w
          (record w { serving = close_descriptor fd w.serving; closed_ones = fd ∷ w.closed_ones })
  thread_ends :
      (w : World) (fd : ℕ)
      → 0 < times fd w.closed_ones
      → Happens w (record w {
        table = end_session w.table fd;
        closed_ones = close_descriptor fd w.closed_ones;
      })

pub data History (start : World) : World → Type 0 where
  at_first : History start start
  then_also : {w w' : World} → History start w → Happens w w' → History start w'

-- A server that has just been set up.
unfoldable pub new_world : ServerState → ℕ → ℕ → World
new_world s p fd = record {
  table = (server_init s p (some fd) true true).0;
  serving = [];
  closed_ones = [];
}

-- For every descriptor the table has as many active records as there are threads with it.
pub record IsCounted (w : World) : Type 0 where
  pub each : (x : ℕ) → count x w.table.clients ≡ times x w.serving + times x w.closed_ones

times-close_descriptor :
    (d : ℕ) (ds : List ℕ) (x : ℕ) → times x (close_descriptor d ds) ≡ times x ds - one_for d x
unfolding times close_descriptor
times-close_descriptor d [] x = omega arith
times-close_descriptor d (y ∷ ds) x = ground (arith, times-close_descriptor d ds x)

-- A descriptor that is taken out of a list in which it stands.
moved :
    (ds : List ℕ) (d x : ℕ)
    → 0 < times d ds
    → one_for d x + times x (close_descriptor d ds) ≡ times x ds
moved ds d x inside = elim (Bool-cases (d == x)) [
  | inl found ↦
      let same_fd : d ≡ x = ground arith in
      let here_too : 0 < times x ds = rw same_fd at inside in
      let one : one_for d x ≡ 1 = rw found refl in omega (arith, times-close_descriptor d ds x, one)
  | inr other ↦
      let nothing : one_for d x ≡ 0 = rw other refl in
      omega (arith, times-close_descriptor d ds x, nothing)
]

all_inactive-count : (cs : List ClientRecord) (x : ℕ) → count x (all_inactive cs) ≡ 0
unfolding count all_inactive
all_inactive-count [] x = refl
all_inactive-count (c ∷ cs) x = omega (arith, all_inactive-count cs x)

Happens-IsCounted : {w w' : World} → Happens w w' → IsCounted w → IsCounted w'
unfolding times end_session
Happens-IsCounted (client_comes w fd ip p fresh room) g = record {
  each = λ x. omega (arith, (clients_count w.table fd ip p x).0 room, g.each x);
}
Happens-IsCounted (thread_closes w fd serves) g = record {
  each = λ x. omega (arith, moved w.serving fd x serves, g.each x);
}
Happens-IsCounted (thread_ends w fd behind) g = record {
  each = λ x.
      omega (arith, (clients_count w.table fd [] 0 x).2, moved w.closed_ones fd x behind, g.each x);
}

-- One record for each thread. From a server that has just been set up, with any content of its table,
-- let clients come while the table has room, and let their threads close their descriptors and give
-- up their records, in any order of these steps, where the system hands out any descriptor that no
-- thread still has open. Then the table has at every moment, for each descriptor, as many active
-- records as there are threads with it that have not given up theirs.
pub table-IsCounted :
    (s : ServerState) (p fd : ℕ) {w : World} → History (new_world s p fd) w → IsCounted w
unfolding new_world server_init times
table-IsCounted s p fd at_first = record { each = λ x. all_inactive-count s.clients x }
table-IsCounted s p fd (then_also h step) = Happens-IsCounted step (table-IsCounted s p fd h)

-- But the record need not be that of the thread: where the first place is free, a client that gets the
-- descriptor of one whose thread has closed it, and not given up its record yet, takes that place,
-- and the ending thread gives up the new client's record in the place of its own.
wrong_record_given_up :
    (s : ServerState) (free : ClientRecord) (rest : List ClientRecord) (fd p p' : ℕ) (ip ip' : Text)
    → free.active ≡ false
    → s.clients ≡ free ∷ filled fd ip p ∷ rest
    → (end_session (clients_add s fd ip' p').0 fd).clients
      ≡ record (filled fd ip' p') { active = false } ∷ filled fd ip p ∷ rest
unfolding end_session clients_remove clients_add add_record remove_record
wrong_record_given_up s free rest fd p p' ip ip' idle e =
    let same_fd : (fd == fd) ≡ true = ground arith in rw (e, idle, same_fd) refl
