-- ===== src/Uploads/Traffic/Pledges.antt =====
-- app/attachments.py: the ledger `_reserved_bytes` under any interleaving of uploads.
use mathlib.Core.Path.{subst}
use mathlib.Core.Option.{some-injective}
use brainard.Prelude.{
  ℕ, ◌+◌, ◌<◌, ◌≤◌, String, Bool, true, false, ◌≡◌, refl, sym, ◌∙◌, Option, none, some, List, [],
  ◌∷◌, ◌==◌, arith, if◌then◌else◌,
}
use brainard.Prelude.Table.{Table, lookup, insert, remove, lookup-insert, lookup-remove}
use brainard.Prelude.Table.Sums.{
  IsKeyed, IsKeyed-insert, IsKeyed-remove, sum_of, sum_of-insert-none, sum_of-insert-some,
  sum_of-remove,
}
use brainard.Errors.{Result, ok, err}
use brainard.Uploads.{
  Settings, Receiver, new_receiver, Storage, receive_chunk, end_stream, exit_with, abandon,
}
use brainard.Uploads.Traffic.{
  Traffic, Move, begin, send, finish, quit, settle, step_of, move, moves,
}
use brainard.Uploads.Traffic.Balance.{
  IsPledged, IsBalanced, abandon-reserved, receive_chunk-IsBalanced, end_stream-IsBalanced,
  exit_with-reserved,
}

-- What the uploads in flight may still write.
abbrev pub pledges : Table Receiver → ℕ
pledges = sum_of (λ u. u.reserved)

module _ (s : Settings) where
  -- The ledger is the sum of the pledges, each of which is what the size cap leaves.
  pub record IsBooked (p : Traffic) : Type 0 where
    pub keyed : IsKeyed p.receivers
    pub pledged : (tmp : String) (u : Receiver) → lookup tmp p.receivers ≡ some u → IsPledged s u
    pub ledger : p.storage.reserved_bytes ≡ pledges p.receivers

  insert-IsBooked :
      (p : Traffic) (tmp : String) (u : Receiver) (e : Storage)
      → IsBooked p
      → IsPledged s u
      → e.reserved_bytes ≡ pledges (insert tmp u p.receivers)
      → IsBooked (record { storage = e; receivers = insert tmp u p.receivers })
  insert-IsBooked p tmp u e h k l = record {
    keyed = IsKeyed-insert tmp u p.receivers h.keyed;
    pledged = λ j v found. choose (tmp == j) j v (sym (lookup-insert tmp j u p.receivers) ∙ found);
    ledger = l;
  }
    where
      choose :
          (b : Bool) (j : String) (v : Receiver)
          → (if b then some u else lookup j p.receivers) ≡ some v
          → IsPledged s v
      choose true j v found = subst (IsPledged s) (some-injective u v found) k
      choose false j v found = h.pledged j v found

  remove-IsBooked :
      (p : Traffic) (tmp : String) (u : Receiver) (e : Storage)
      → IsBooked p
      → lookup tmp p.receivers ≡ some u
      → e.reserved_bytes ≡ pledges (remove tmp p.receivers)
      → IsBooked (record { storage = e; receivers = remove tmp p.receivers })
  remove-IsBooked p tmp u e h found l = record {
    keyed = IsKeyed-remove tmp p.receivers h.keyed;
    pledged = λ j v there. choose (tmp == j) j v (sym (lookup-remove tmp j p.receivers) ∙ there);
    ledger = l;
  }
    where
      choose :
          (b : Bool) (j : String) (v : Receiver)
          → (if b then none else lookup j p.receivers) ≡ some v
          → IsPledged s v
      choose true j v there = cc
      choose false j v there = h.pledged j v there

  -- The pledges of the others stay, in a step of one upload.
  others_lem :
      (p : Traffic) (tmp : String) (u : Receiver)
      → IsBooked p
      → lookup tmp p.receivers ≡ some u
      → p.storage.reserved_bytes ≡ pledges (remove tmp p.receivers) + u.reserved
  others_lem p tmp u h found =
      ground (arith, h.ledger, sum_of-remove (λ v. v.reserved) tmp u p.receivers h.keyed found)

  step_of-IsBooked :
      (tmp : String) (next : Receiver → Traffic) (p : Traffic)
      → IsBooked p
      → ((u : Receiver) → lookup tmp p.receivers ≡ some u → IsBooked (next u))
      → IsBooked (step_of tmp next p (lookup tmp p.receivers))
  unfolding step_of
  step_of-IsBooked tmp next p h k = choose (lookup tmp p.receivers) refl
    where
      choose : (o : Option Receiver) → lookup tmp p.receivers ≡ o → IsBooked (step_of tmp next p o)
      choose none found = h
      choose (some u) found = k u found

  settle-IsBooked :
      (sha256 : List ℕ → String) (p : Traffic) (tmp : String) (u : Receiver)
      (r : Result Receiver × Storage) (free : ℕ)
      → IsBooked p
      → lookup tmp p.receivers ≡ some u
      → IsBalanced s free (pledges (remove tmp p.receivers)) u.total r
      → IsBooked (settle sha256 s tmp p.receivers r)
  unfolding settle
  settle-IsBooked sha256 p tmp u (err x, e) free h found b = remove-IsBooked p tmp u e h found b
  settle-IsBooked sha256 p tmp u (ok v, e) free h found (k, b, l) = insert-IsBooked p tmp v e h k (
      ground (
        arith,
        b,
        sum_of-insert-some (λ w. w.reserved) tmp v u p.receivers found,
        h.ledger,
        sum_of-remove (λ w. w.reserved) tmp u p.receivers h.keyed found,
      ))

  -- Each step keeps the ledger in step with the uploads.
  move-IsBooked :
      (sha256 : List ℕ → String) (m : Move) (p : Traffic)
      → IsBooked p
      → IsBooked (move sha256 s m p)
  unfolding move step_of
  move-IsBooked sha256 (begin tmp) p h = choose (lookup tmp p.receivers) refl
    where
      choose :
          (o : Option Receiver)
          → lookup tmp p.receivers ≡ o
          → IsBooked (elim o [
            | none ↦ record p { receivers = insert tmp new_receiver p.receivers }
            | some u ↦ p
          ])
      choose none absent =
          insert-IsBooked p tmp new_receiver p.storage h (refl, refl)
            (ground (
              arith,
              h.ledger,
              sum_of-insert-none (λ u. u.reserved) tmp new_receiver p.receivers absent,
            ))
      choose (some u) found = h
  move-IsBooked sha256 (send tmp free bytes) p h =
      step_of-IsBooked tmp
        (λ u. settle sha256 s tmp p.receivers (receive_chunk s free tmp bytes u p.storage)) p h
        (λ u found.
          settle-IsBooked sha256 p tmp u (receive_chunk s free tmp bytes u p.storage) free h found (
            receive_chunk-IsBalanced s free (pledges (remove tmp p.receivers)) tmp bytes u p.storage
              (h.pledged tmp u found) (others_lem p tmp u h found)))
  move-IsBooked sha256 (finish tmp last) p h =
      step_of-IsBooked tmp
        (λ u. record {
          storage = (exit_with sha256 s tmp (end_stream s last tmp u p.storage)).1;
          receivers = remove tmp p.receivers;
        })
        p h
        (λ u found.
          remove-IsBooked p tmp u (exit_with sha256 s tmp (end_stream s last tmp u p.storage)).1 h
            found
            (exit_with-reserved s sha256 tmp last (pledges (remove tmp p.receivers)) u.total
              (end_stream s last tmp u p.storage)
              (end_stream-IsBalanced s last (pledges (remove tmp p.receivers)) tmp u p.storage
                (h.pledged tmp u found) (others_lem p tmp u h found))))
  move-IsBooked sha256 (quit tmp) p h =
      step_of-IsBooked tmp
        (λ u. record { storage = abandon tmp u p.storage; receivers = remove tmp p.receivers }) p h
        (λ u found. remove-IsBooked p tmp u (abandon tmp u p.storage) h found (
          abandon-reserved s tmp (pledges (remove tmp p.receivers)) u p.storage
            (others_lem p tmp u h found)))

  -- From a state whose ledger is the sum of the pledges of the uploads in flight, any interleaving of
  -- uploads that begin, send chunks, end or hang up leads to such a state: nothing that an upload
  -- pledged is lost or released twice, however it ends.
  pub moves-IsBooked :
      (sha256 : List ℕ → String) (ms : List Move) (p : Traffic)
      → IsBooked p
      → IsBooked (moves sha256 s ms p)
  unfolding moves
  moves-IsBooked sha256 [] p h = h
  moves-IsBooked sha256 (m ∷ ms) p h =
      moves-IsBooked sha256 ms (move sha256 s m p) (move-IsBooked sha256 m p h)

  -- However many uploads are in flight, when a chunk of one is written, the free space that was read
  -- covers what the write takes, the floor, and all that the other uploads may still write.
  pub receive_chunk-headroom :
      (p : Traffic) (tmp : String) (u v : Receiver) (free : ℕ) (bytes : List ℕ) (e : Storage)
      → IsBooked p
      → lookup tmp p.receivers ≡ some u
      → receive_chunk s free tmp bytes u p.storage ≡ (ok v, e)
      → u.total < v.total
      → s.attachment_free_disk_floor_bytes + v.total + pledges (remove tmp p.receivers)
        ≤ free + u.total
  receive_chunk-headroom p tmp u v free bytes e h found at grows = ground (
    arith,
    grows,
    subst (IsBalanced s free (pledges (remove tmp p.receivers)) u.total) at (
        receive_chunk-IsBalanced s free (pledges (remove tmp p.receivers)) tmp bytes u p.storage
          (h.pledged tmp u found) (others_lem p tmp u h found)),
  )
