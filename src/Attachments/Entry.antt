-- ===== src/Attachments/Entry.antt =====
-- app/attachments.py: what the checks under the row lock establish of a new attachment.
use brainard.Prelude.{◌<◌, String, Bool, true, false, not, ◌||◌, ◌≡◌, length, ◌==◌, contains, arith}
use brainard.Prelude.Text.{strip, is_empty}
use brainard.Errors.{ok}
use brainard.Model.{Chat, Principal, is_open, is_owner}
use brainard.Rooms.Queries.{get_members}
use brainard.Rooms.Seats.{check_and_bind_seat}
use brainard.Uploads.{Settings}
use brainard.Attachments.{clean_sender, check_entry}

-- Who may add to the room `c`, as `cleaned`, and the room `b` with the sender's seat.
pub record IsEntered (s : Settings) (is_upload : Bool) (c : Chat) (sender : String)
    (principal : Principal) (cleaned : String) (b : Chat) : Type 0 where
  pub room_open : is_open c.room ≡ true
  pub named : cleaned ≡ strip sender
  pub named_some : is_empty cleaned ≡ false
  pub owner_token : (not (cleaned == "owner") || is_owner principal) ≡ true
  pub member : (cleaned == "owner" || contains cleaned (get_members c)) ≡ true
  pub allowed : (not is_upload || cleaned == "owner" || c.agent_uploads_allowed) ≡ true
  pub below_cap : length c.attachments < s.attachment_max_files_per_room
  pub seated : check_and_bind_seat c cleaned principal ≡ ok b

pub check_entry-IsEntered :
    (s : Settings) (is_upload : Bool) (c : Chat) (sender : String) (principal : Principal)
    (cleaned : String) (b : Chat)
    → check_entry s is_upload c sender principal ≡ ok (cleaned, b)
    → IsEntered s is_upload c sender principal cleaned b
unfolding check_entry clean_sender
check_entry-IsEntered s is_upload c sender principal cleaned b e = ground (arith, e)
