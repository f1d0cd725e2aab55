-- ===== src/Server/Table.antt =====
-- What the table of clients stands for: a bag of descriptors, in which one record stands for each
-- session that found a place.
use hybrid_ftp.Base.{
  ℕ, zero, suc, ◌+◌, ◌-◌, ◌≡◌, refl, ap, ◌≢◌, inl, inr, Bool, true, false, ◌&&◌, none, some, List,
  [], ◌∷◌, arith, ◌==◌, if◌then◌else◌, Bool-cases, get_elem?,
}
use hybrid_ftp.Text.{Text}
use hybrid_ftp.Server.{
  ClientRecord, ServerState, filled, add_record, remove_record, clients_add, clients_remove,
}

-- How many active records have the descriptor.
unfoldable pub count : ℕ → List ClientRecord → ℕ
count fd [] = 0
count fd (c ∷ cs) = (if c.active && (c.socket_fd == fd) then 1 else 0) + count fd cs

unfoldable pub is_full : List ClientRecord → Bool
is_full [] = true
is_full (c ∷ cs) = c.active && is_full cs

-- One for the descriptor itself.
abbrev pub one_for : ℕ → ℕ → ℕ
one_for fd x = if fd == x then 1 else 0

add_record-count :
    (cs : List ClientRecord) (r : ClientRecord) (x : ℕ)
    → r.active ≡ true
    → is_full cs ≡ false
    → count x (add_record cs r).0 ≡ one_for r.socket_fd x + count x cs
unfolding add_record count is_full
add_record-count [] r x live full = absurd (cc)
add_record-count (c ∷ cs) r x live room = elim (Bool-cases c.active) [
  | inr idle ↦ rw (idle, live) (omega arith)
  | inl taken ↦
      let room' : is_full cs ≡ false = rw taken at room in
      rw taken (omega (arith, add_record-count cs r x live room'))
]

add_record_full :
    (cs : List ClientRecord) (r : ClientRecord) → is_full cs ≡ true → add_record cs r ≡ (cs, none)
unfolding add_record is_full
add_record_full [] r full = refl
add_record_full (c ∷ cs) r full =
    let taken : c.active ≡ true = ground arith in
    let full' : is_full cs ≡ true = ground arith in rw (taken, add_record_full cs r full') refl

-- A record that is not the one to give up.
other_record :
    (b : Bool) (fd x n n' : ℕ)
    → n' ≡ n - one_for fd x
    → (fd ≡ x → b ≡ false)
    → (if b then 1 else 0) + n' ≡ (if b then 1 else 0) + n - one_for fd x
other_record b fd x n n' e h = elim (Bool-cases (fd == x)) [
  | inl found ↦ let same_fd : fd ≡ x = ground arith in rw (h same_fd, e) (omega arith)
  | inr other ↦ rw (other, e) (rw other (omega arith))
]

remove_record-count :
    (cs : List ClientRecord) (fd x : ℕ) → count x (remove_record cs fd) ≡ count x cs - one_for fd x
unfolding remove_record count
remove_record-count [] fd x = omega arith
remove_record-count (c ∷ cs) fd x = elim (Bool-cases (c.active && (c.socket_fd == fd))) [
  | inl found ↦
      let live : c.active ≡ true = ground arith in
      let same_fd : c.socket_fd ≡ fd = ground arith in rw (found, live, same_fd) (omega arith)
  | inr other ↦ rw other (
      other_record (c.active && (c.socket_fd == x)) fd x _ _ (remove_record-count cs fd x)
        (λ same_fd. rw same_fd at other))
]

-- The whole effect of both operations on the bag. A table with room gets one record more for the new
-- descriptor; a full one is as it was, and `clients_add` gives -1.
-- `clients_remove` takes one record away for the descriptor, if there is one. Nothing changes for any
-- other descriptor.
pub clients_count :
    (s : ServerState) (fd : ℕ) (ip : Text) (p x : ℕ)
    → (is_full s.clients ≡ false
        → count x (clients_add s fd ip p).0.clients ≡ one_for fd x + count x s.clients)
      × (is_full s.clients ≡ true → clients_add s fd ip p ≡ (s, none))
      × (count x (clients_remove s fd).clients ≡ count x s.clients - one_for fd x)
unfolding clients_add clients_remove
clients_count s fd ip p x = (
  λ room. add_record-count s.clients (filled fd ip p) x refl room,
  λ full. rw (add_record_full s.clients (filled fd ip p) full) refl,
  remove_record-count s.clients fd x,
)

first_kept :
    (cs : List ClientRecord) (c r : ClientRecord) (j : ℕ)
    → j ≢ 0
    → get_elem? (r ∷ cs) j ≡ get_elem? (c ∷ cs) j
first_kept cs c r zero other = absurd (other refl)
first_kept cs c r (suc j) other = refl

rest_kept :
    (cs cs' : List ClientRecord) (c : ClientRecord) (i : ℕ)
    → ((j : ℕ) → j ≢ i → get_elem? cs' j ≡ get_elem? cs j)
    → (j : ℕ) → j ≢ suc i
    → get_elem? (c ∷ cs') j ≡ get_elem? (c ∷ cs) j
rest_kept cs cs' c i kept zero other = refl
rest_kept cs cs' c i kept (suc j) other = kept j (λ same_index. other (ap suc same_index))

add_record-slot :
    (cs : List ClientRecord) (r : ClientRecord)
    → is_full cs ≡ false
    → (i : ℕ) × ((add_record cs r).1 ≡ some i)
      × (get_elem? (add_record cs r).0 i ≡ some r)
      × ((j : ℕ) → j ≢ i → get_elem? (add_record cs r).0 j ≡ get_elem? cs j)
unfolding add_record is_full
add_record-slot [] r room = absurd (cc)
add_record-slot (c ∷ cs) r room = elim (Bool-cases c.active) [
  | inr idle ↦ rw idle (0, refl, refl, λ j other. first_kept cs _ r j other)
  | inl taken ↦
      let room' : is_full cs ≡ false = rw taken at room in
      let (i, index, found, kept) = add_record-slot cs r room' in
      rw taken
        (suc i, rw index refl, found, λ j other. rest_kept cs (add_record cs r).0 _ i kept j other)
]

-- In a table with room `clients_add` returns the index of the record that it has filled in, and every
-- other record is as it was.
clients_add_lem :
    (s : ServerState) (fd : ℕ) (ip : Text) (p : ℕ)
    → is_full s.clients ≡ false
    → (i : ℕ) × ((clients_add s fd ip p).1 ≡ some i)
      × (get_elem? (clients_add s fd ip p).0.clients i ≡ some (filled fd ip p))
      × ((j : ℕ) → j ≢ i → get_elem? (clients_add s fd ip p).0.clients j ≡ get_elem? s.clients j)
unfolding clients_add
clients_add_lem s fd ip p room = add_record-slot s.clients (filled fd ip p) room
