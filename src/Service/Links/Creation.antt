-- ===== src/Service/Links/Creation.antt =====
-- `Create` of internal/service/link.go: the rows that it leaves alone, the code that it allocates.
use go_link_shortener.Base.{
  any-of-find, ℕ, zero, suc, ◌+◌, ◌≡◌, refl, ap, Bool, true, false, some, List, [], Bytes, bytes_eq,
  bytes_eq_iff, any, arith, inl, inr, Bool-cases,
}
use go_link_shortener.Domain.Errors.{conflict, Result, ok, err}
use go_link_shortener.Domain.Link.{Link}
use go_link_shortener.Store.Db.{Db, Minted, has_live_code}
use go_link_shortener.Store.Links
use go_link_shortener.Service.World.{World}
use go_link_shortener.Service.Links.{
  valid_alias, LinkService, CreateEnv, CreateLinkInput, create, create_from, draft, persist,
  created, allocate_generated_code, on_candidate, on_insert,
}
use go_link_shortener.Service.Redirect.Agreement.{live_row, IsCoherent}

-- Every live row is still there.
pub record KeepsRows (a b : Db) : Type 0 where
  pub kept : (code : Bytes) (x : Link) → live_row code a ≡ some x → live_row code b ≡ some x

KeepsRows-refl : (a : Db) → KeepsRows a a
KeepsRows-refl a = record { kept = λ code x h. h }

live_code_unique :
    (a b : Bytes) (rs : List Link)
    → bytes_eq a b ≡ true
    → any (has_live_code a) rs ≡ any (has_live_code b) rs
live_code_unique a b rs h = ap (λ c. any (has_live_code c) rs) ((bytes_eq_iff a b).0 h)

insert-KeepsRows :
    (fault : Bool) (m : Minted) (l : Link) (db : Db) → KeepsRows db (Links.create fault m l db).1
unfolding Links.create Links.inserted
insert-KeepsRows true m l db = KeepsRows-refl db
insert-KeepsRows false m l db = record {
  kept = λ code x h.
      ground
        (arith, any-of-find (has_live_code code) db.links x, live_code_unique l.code code db.links);
}

KeepsRows-trans : {a b c : Db} → KeepsRows a b → KeepsRows b c → KeepsRows a c
KeepsRows-trans p q = record { kept = λ code x h. q.kept code x (p.kept code x h) }

on_candidate-KeepsRows :
    (r : Result Bytes) (db : Db) (insert : Bytes → Result Link × Db)
    → ((code : Bytes) → KeepsRows db (insert code).1)
    → KeepsRows db (on_candidate r db insert).1
unfolding on_candidate
on_candidate-KeepsRows (err e) db insert h = KeepsRows-refl db
on_candidate-KeepsRows (ok code) db insert h = h code

on_insert-KeepsRows :
    (db : Db) (p : Result Link × Db) (again : Db → Result Link × Db)
    → KeepsRows db p.1
    → ((db' : Db) → KeepsRows db' (again db').1)
    → KeepsRows db (on_insert p again).1
unfolding on_insert
on_insert-KeepsRows db (ok l, db') again h k = h
on_insert-KeepsRows db (err conflict, db') again h k = KeepsRows-trans h (k db')
on_insert-KeepsRows db (err e, db') again h k = h

allocate-KeepsRows :
    (left k : ℕ) (env : CreateEnv) (l : Link) (db : Db)
    → KeepsRows db (allocate_generated_code left k env l db).1
unfolding allocate_generated_code
allocate-KeepsRows zero k env l db = KeepsRows-refl db
allocate-KeepsRows (suc left) k env l db = on_candidate-KeepsRows (env.candidate k) db _ λ code.
    on_insert-KeepsRows db _ _
      (insert-KeepsRows (env.insert_fails k) (env.minted k) (record l { code = code }) db)
      (λ db'. allocate-KeepsRows left (k + 1) env (record l { code = code }) db')

persist-KeepsRows :
    (s : LinkService) (env : CreateEnv) (alias : Bytes) (l : Link) (db : Db)
    → KeepsRows db (persist s env alias l db).1
unfolding persist
persist-KeepsRows s env alias l db = elim (Bool-cases (bytes_eq alias [])) [
  | inl generated ↦ rw generated (allocate-KeepsRows s.max_collision 0 env l db)
  | inr given ↦ elim (Bool-cases (valid_alias alias)) [
    | inl good ↦
        rw (given, good)
          (insert-KeepsRows (env.insert_fails 0) (env.minted 0) (record l { code = alias }) db)
    | inr bad ↦ rw (given, bad) (KeepsRows-refl db)
  ]
]

created-redis :
    (s : LinkService) (w : World) (p : Result Link × Db) → (created s w p).1.redis ≡ w.redis
unfolding created
created-redis s w (ok l, db) = ground arith
created-redis s w (err e, db) = refl

created-db : (s : LinkService) (w : World) (p : Result Link × Db) → (created s w p).1.db ≡ p.1
unfolding created
created-db s w (ok l, db) = ground arith
created-db s w (err e, db) = refl

create_from-frame :
    (s : LinkService) (env : CreateEnv) (alias : Bytes) (w : World) (d : Result Link)
    → ((create_from s env alias w d).1.redis ≡ w.redis)
      × KeepsRows w.db (create_from s env alias w d).1.db
unfolding create_from
create_from-frame s env alias w (err e) = (refl, KeepsRows-refl w.db)
create_from-frame s env alias w (ok l) = (
  created-redis s w (persist s env alias l w.db),
  rw (created-db s w (persist s env alias l w.db)) (persist-KeepsRows s env alias l w.db),
)

-- `Create` leaves the cache alone and every live row in its place, whatever happens.
pub create-frame :
    (s : LinkService) (env : CreateEnv) (tenant : ℕ) (input : CreateLinkInput) (w : World)
    → ((create s env tenant input w).1.redis ≡ w.redis)
      × KeepsRows w.db (create s env tenant input w).1.db
unfolding create
create-frame s env tenant input w =
    create_from-frame s env input.custom_alias w (draft s env.now tenant input)

pub frame-IsCoherent :
    {w w' : World} → w'.redis ≡ w.redis → KeepsRows w.db w'.db → IsCoherent w → IsCoherent w'
frame-IsCoherent {w} {w'} same keeps h = record {
  mirrored = λ t code s e.
      let (r, row, m) = h.mirrored t code s (rw (← same) e) in (r, keeps.kept code r row, m);
}

-- `Create` keeps a coherent cache coherent, though it evicts nothing: whatever the input and whatever
-- fails.
pub create-IsCoherent :
    (s : LinkService) (env : CreateEnv) (tenant : ℕ) (input : CreateLinkInput) (w : World)
    → IsCoherent w
    → IsCoherent (create s env tenant input w).1
create-IsCoherent s env tenant input w h =
    let (same, keeps) = create-frame s env tenant input w in frame-IsCoherent same keeps h
