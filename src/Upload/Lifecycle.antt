-- ===== src/Upload/Lifecycle.antt =====
-- What the statements of services/upload/postgres.go can do to a chunk map, whatever handlers run
-- them and in whatever order.
use aether_edit.Prelude.{
  ℕ, String, ◌≡◌, refl, sym, ap, ◌∙◌, inl, inr, Bool, true, none, some, List, [], ◌∷◌, arith,
  str_eq, eq_iff, Bool-cases, Option-cases,
}
use aether_edit.Prelude.Assoc.{lookup, insert, lookup-insert}
use aether_edit.Prelude.Table.{update_where}
use aether_edit.Upload.{
  SessionState, assembled, ChunkState, inflight, retry, is_done, Session, Chunk, Db,
}
use aether_edit.Upload.Rows.{
  create_session, claim_chunk, mark_chunk_done, mark_chunk_retry, set_session_assembled,
  set_session_state, update_chunks, at_index, open_at, with_state, update_session, finished,
}

-- The statements that write the tables.
pub data Op : Type 0 where
  create : Session → Op
  claim : String → ℕ → Op
  finish : String → ℕ → String → String → ℕ → Op
  flag : String → ℕ → Op
  set_assembled : String → String → String → Op
  set_state : String → SessionState → Op

unfoldable pub apply : Op → Db → Db
unfolding create_session claim_chunk mark_chunk_done mark_chunk_retry set_session_assembled
    set_session_state
apply (create s) db = (create_session s db).1
apply (claim id i) db = (claim_chunk id i db).1
apply (finish id i sha etag size) db = (mark_chunk_done id i sha etag size db).1
apply (flag id i) db = (mark_chunk_retry id i db).1
apply (set_assembled id sha key) db = (set_session_assembled id sha key db).1
apply (set_state id st) db = (set_session_state id st db).1

unfoldable pub run : List Op → Db → Db
run [] db = db
run (op ∷ ops) db = run ops (apply op db)

-- A session has rows only if it is there.
abbrev pub IsLinked : Db → Type 0
IsLinked db = (id : String) → lookup id db.sessions ≡ none → lookup id db.chunks ≡ none

-- Row for row the same index, and done if it was.
abbrev pub Kept : List Chunk → List Chunk → Type 0
Kept [] [] = Unit
Kept [] (_ ∷ _) = ⊥
Kept (_ ∷ _) [] = ⊥
Kept (c ∷ cs) (d ∷ ds) =
    (d.index ≡ c.index) × (is_done c.state ≡ true → is_done d.state ≡ true) × Kept cs ds

Kept-refl : (cs : List Chunk) → Kept cs cs
Kept-refl [] = tt
Kept-refl (c ∷ cs) = (refl, λ h. h, Kept-refl cs)

Kept-trans : (cs ds es : List Chunk) → Kept cs ds → Kept ds es → Kept cs es
Kept-trans [] [] [] h k = tt
Kept-trans [] [] (_ ∷ _) h k = elim k [ ]
Kept-trans [] (_ ∷ _) es h k = elim h [ ]
Kept-trans (_ ∷ _) [] es h k = elim h [ ]
Kept-trans (_ ∷ _) (_ ∷ _) [] h k = elim k [ ]
Kept-trans (c ∷ cs) (d ∷ ds) (e ∷ es) h k =
    (k.0 ∙ h.0, λ p. k.1 (h.1 p), Kept-trans cs ds es h.2 k.2)

update-Kept :
    (p : Chunk → Bool) (f : Chunk → Chunk)
    → ((c : Chunk) → (f c).index ≡ c.index)
    → ((c : Chunk) → p c ≡ true → is_done c.state ≡ true → is_done (f c).state ≡ true)
    → (cs : List Chunk) → Kept cs (update_where p f cs)
unfolding update_where
update-Kept p f same keep [] = tt
update-Kept p f same keep (c ∷ cs) =
    (ground (arith, same c), ground (arith, keep c), update-Kept p f same keep cs)

-- The rows under an id are kept.
abbrev pub RowsKept : Db → Db → Type 0
RowsKept db db' =
    (id : String) (cs : List Chunk)
    → lookup id db.chunks ≡ some cs
    → (ds : List Chunk) × (lookup id db'.chunks ≡ some ds) × Kept cs ds

same_rows :
    (id k : String) (rows cs : List Chunk) (db : Db)
    → lookup id db.chunks ≡ some rows
    → lookup k db.chunks ≡ some cs
    → id ≡ k
    → rows ≡ cs
same_rows id k rows cs db e h p = cc

update_chunks-RowsKept :
    (id : String) (p : Chunk → Bool) (f : Chunk → Chunk) (db : Db)
    → ((c : Chunk) → (f c).index ≡ c.index)
    → ((c : Chunk) → p c ≡ true → is_done c.state ≡ true → is_done (f c).state ≡ true)
    → RowsKept db (update_chunks id p f db)
unfolding update_chunks
update_chunks-RowsKept id p f db same keep k cs h = elim (Option-cases (lookup id db.chunks)) [
  | inl e ↦ (cs, rw (e, update_chunks) h, Kept-refl cs)
  | inr (rows, e) ↦ elim (Bool-cases (str_eq id k)) [
    | inl eq ↦
        let r : rows ≡ cs = same_rows id k rows cs db e h ((eq_iff id k).0 eq) in
        (
          update_where p f cs,
          rw (e, update_chunks, lookup-insert, eq)
              (ap (λ (x : List Chunk). some (update_where p f x)) r),
          update-Kept p f same keep cs,
        )
    | inr ne ↦ (cs, rw (e, update_chunks, lookup-insert, ne) h, Kept-refl cs)
  ]
]

RowsKept-refl : (db : Db) → RowsKept db db
RowsKept-refl db id cs h = (cs, h, Kept-refl cs)

lost :
    (id k : String) (cs : List Chunk) (db : Db)
    → lookup id db.chunks ≡ none
    → lookup k db.chunks ≡ some cs
    → id ≡ k
    → ⊥
lost id k cs db e h p = cc

create-RowsKept : (s : Session) (db : Db) → IsLinked db → RowsKept db (create_session s db).1
unfolding create_session
create-RowsKept s db linked k cs h = elim (Option-cases (lookup s.id db.sessions)) [
  | inr (old, e) ↦ (cs, rw (e, create_session) h, Kept-refl cs)
  | inl e ↦ elim (Bool-cases (str_eq s.id k)) [
    | inl eq ↦ absurd (lost s.id k cs db (linked s.id e) h ((eq_iff s.id k).0 eq))
    | inr ne ↦ (cs, rw (e, create_session, lookup-insert, ne) h, Kept-refl cs)
  ]
]

update_session-chunks :
    (id : String) (f : Session → Session) (db : Db) → (update_session id f db).1.chunks ≡ db.chunks
unfolding update_session
update_session-chunks id f db = ground arith

session-RowsKept :
    (id : String) (f : Session → Session) (db : Db) → RowsKept db (update_session id f db).1
session-RowsKept id f db k cs h = (cs, rw (update_session-chunks id f db) h, Kept-refl cs)

open_not_done :
    (i : ℕ) (st : ChunkState) (c : Chunk)
    → open_at i c ≡ true
    → is_done c.state ≡ true
    → is_done st ≡ true
open_not_done i st c p d = ground arith

apply-RowsKept : (op : Op) (db : Db) → IsLinked db → RowsKept db (apply op db)
unfolding apply
apply-RowsKept (create s) db l = create-RowsKept s db l
apply-RowsKept (claim id i) db l =
    update_chunks-RowsKept id (open_at i) (with_state inflight) db (λ c. refl)
      (open_not_done i inflight)
apply-RowsKept (finish id i sha etag size) db l =
    update_chunks-RowsKept id (at_index i) _ db (λ c. refl) (λ c p d. refl)
apply-RowsKept (flag id i) db l =
    update_chunks-RowsKept id (open_at i) (with_state retry) db (λ c. refl) (open_not_done i retry)
apply-RowsKept (set_assembled id sha key) db l = session-RowsKept id _ db
apply-RowsKept (set_state id st) db l = session-RowsKept id _ db

insert-IsLinked :
    (id : String) (rows new : List Chunk) (db : Db)
    → lookup id db.chunks ≡ some rows
    → IsLinked db
    → IsLinked (record db { chunks = insert id new db.chunks })
insert-IsLinked id rows new db e l k h = elim (Bool-cases (str_eq id k)) [
  | inl eq ↦ absurd (lost k id rows db (l k h) e (sym ((eq_iff id k).0 eq)))
  | inr ne ↦ rw (lookup-insert, ne) (l k h)
]

update_chunks-IsLinked :
    (id : String) (p : Chunk → Bool) (f : Chunk → Chunk) (db : Db)
    → IsLinked db
    → IsLinked (update_chunks id p f db)
unfolding update_chunks
update_chunks-IsLinked id p f db l = elim (Option-cases (lookup id db.chunks)) [
  | inl e ↦ rw (e, update_chunks) l
  | inr (rows, e) ↦ rw (e, update_chunks) (insert-IsLinked id rows (update_where p f rows) db e l)
]

session-IsLinked :
    (id : String) (f : Session → Session) (s : Session) (db : Db)
    → lookup id db.sessions ≡ some s
    → IsLinked db
    → IsLinked (record db { sessions = insert id (f s) db.sessions })
session-IsLinked id f s db e l k h = elim (Bool-cases (str_eq id k)) [
  | inl eq ↦ absurd (ground (arith, (rw (lookup-insert, eq) at h)))
  | inr ne ↦ l k (rw (lookup-insert, ne) at h)
]

update_session-IsLinked :
    (id : String) (f : Session → Session) (db : Db)
    → IsLinked db
    → IsLinked (update_session id f db).1
unfolding update_session
update_session-IsLinked id f db l = elim (Option-cases (lookup id db.sessions)) [
  | inl e ↦ rw (e, update_session) l
  | inr (s, e) ↦ rw (e, update_session) (session-IsLinked id f s db e l)
]

new-IsLinked :
    (id : String) (s : Session) (rows : List Chunk) (db : Db)
    → IsLinked db
    → IsLinked (record { sessions = insert id s db.sessions; chunks = insert id rows db.chunks })
new-IsLinked id s rows db l k h = elim (Bool-cases (str_eq id k)) [
  | inl eq ↦ absurd (ground (arith, (rw (lookup-insert, eq) at h)))
  | inr ne ↦ rw (lookup-insert, ne) (l k (rw (lookup-insert, ne) at h))
]

create-IsLinked : (s : Session) (db : Db) → IsLinked db → IsLinked (create_session s db).1
unfolding create_session
create-IsLinked s db l = elim (Option-cases (lookup s.id db.sessions)) [
  | inl e ↦ rw (e, create_session) (new-IsLinked s.id _ _ db l)
  | inr (old, e) ↦ rw (e, create_session) l
]

apply-IsLinked : (op : Op) (db : Db) → IsLinked db → IsLinked (apply op db)
unfolding apply
apply-IsLinked (create s) db l = create-IsLinked s db l
apply-IsLinked (claim id i) db l = update_chunks-IsLinked id (open_at i) (with_state inflight) db l
apply-IsLinked (finish id i sha etag size) db l =
    update_chunks-IsLinked id (at_index i) (finished sha etag size) db l
apply-IsLinked (flag id i) db l = update_chunks-IsLinked id (open_at i) (with_state retry) db l
apply-IsLinked (set_assembled id sha key) db l =
    update_session-IsLinked id (λ s. record s { state = assembled; sha256 = sha; object_key = key })
      db l
apply-IsLinked (set_state id st) db l =
    update_session-IsLinked id (λ s. record s { state = st }) db l

-- Whatever statements run, in whatever order, on tables where only sessions have chunks: a chunk map
-- keeps its rows and their indices, and a chunk that is DONE stays DONE.
pub run-Kept :
    (ops : List Op) (db : Db) (id : String) (cs : List Chunk)
    → IsLinked db
    → lookup id db.chunks ≡ some cs
    → (ds : List Chunk) × (lookup id (run ops db).chunks ≡ some ds) × Kept cs ds
unfolding run
run-Kept [] db id cs l h = (cs, h, Kept-refl cs)
run-Kept (op ∷ ops) db id cs l h =
    let (ds, at, kept) = apply-RowsKept op db l id cs h in
    let (es, end, kept') = run-Kept ops (apply op db) id ds (apply-IsLinked op db l) at in
    (es, end, Kept-trans cs ds es kept kept')
