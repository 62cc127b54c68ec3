-- ===== src/Uploads/Traffic.antt =====
-- app/attachments.py: many uploads in flight at once, over one storage. The handling of a chunk
-- awaits nothing but a lock that nobody holds across an await, so it is one step.
pub mod Balance
pub mod Pledges
use brainard.Prelude.{ℕ, String, Bool, true, false, Option, none, some, List, [], ◌∷◌}
use brainard.Prelude.Table.{Table, lookup, insert, remove}
use brainard.Errors.{Result, ok, err}
use brainard.Uploads.{
  Settings, Receiver, new_receiver, Storage, Exit, receive_chunk, end_stream, exit_with, abandon,
}

-- The storage, and the uploads in flight by the names of their temporary files.
pub record Traffic : Type 0 where
  pub storage : Storage
  pub receivers : Table Receiver

-- What happens next: a request begins, sends a chunk, ends its stream, or hangs up.
pub data Move : Type 0 where
  begin : String → Move
  send : String → ℕ → List ℕ → Move
  finish : String → ℕ → Move
  quit : String → Move

unfoldable pub step_of : String → (Receiver → Traffic) → Traffic → Option Receiver → Traffic
step_of tmp next p none = p
step_of tmp next p (some u) = next u

module _ (sha256 : List ℕ → String) (s : Settings) where
  -- A rejected upload is over.
  unfoldable pub settle : String → Table Receiver → Result Receiver × Storage → Traffic
  settle tmp t (ok u, e) = record { storage = e; receivers = insert tmp u t }
  settle tmp t (err x, e) = record { storage = e; receivers = remove tmp t }

  unfoldable pub move : Move → Traffic → Traffic
  unfolding settle step_of
  move (begin tmp) p = elim (lookup tmp p.receivers) [
    | none ↦ record p { receivers = insert tmp new_receiver p.receivers }
    | some u ↦ p
  ]
  move (send tmp free bytes) p =
      step_of tmp (λ u. settle tmp p.receivers (receive_chunk s free tmp bytes u p.storage)) p
        (lookup tmp p.receivers)
  move (finish tmp last) p =
      step_of tmp
        (λ u. record {
          storage = (exit_with sha256 s tmp (end_stream s last tmp u p.storage)).1;
          receivers = remove tmp p.receivers;
        })
        p (lookup tmp p.receivers)
  move (quit tmp) p =
      step_of tmp
        (λ u. record { storage = abandon tmp u p.storage; receivers = remove tmp p.receivers }) p
        (lookup tmp p.receivers)

  unfoldable pub moves : List Move → Traffic → Traffic
  unfolding move
  moves [] p = p
  moves (m ∷ ms) p = moves ms (move m p)
