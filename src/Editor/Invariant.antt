-- ===== src/Editor/Invariant.antt =====
-- When the tables of the editor agree with each other.
pub mod Seats
pub mod Closings
pub mod Grants
pub mod Growth
pub mod Moves
pub mod Calls
use metal_docs.Prelude.{ℕ, String, ◌≡◌, Bool, true, false, ◌⊎◌, Option, none, some, List, map}
use metal_docs.Prelude.Text.{str_eq}
use metal_docs.Prelude.Lists.{All}
use metal_docs.Prelude.Rows.{AreDistinct, Names}
use metal_docs.Editor.Tables.{
  Document, Session, Revision, PendingUpload, Checkpoint, Tables, is_active,
}

abbrev pub session_key : Session → String × String
session_key s = (s.id, s.document_id)

abbrev pub session_keys : List Session → List (String × String)
session_keys = map session_key

abbrev pub revision_key : Revision → String × String
revision_key r = (r.id, r.document_id)

abbrev pub revision_keys : List Revision → List (String × String)
revision_keys = map revision_key

-- What a document says of its head and of its lock.
pub record Head : Type 0 where
  pub document : String
  pub revision : Option String
  pub session : Option String

abbrev pub head_of : Document → Head
head_of d = record {
  document = d.id;
  revision = d.current_revision_id;
  session = d.active_session_id;
}

-- An active session is the one that its document points to, and has seen the document's head.
abbrev pub Agrees : Head → Session → Type 0
Agrees h s =
    (is_active s ≡ false)
    ⊎ (str_eq s.document_id h.document ≡ false)
    ⊎ ((h.session ≡ some s.id) × (h.revision ≡ some s.last_acknowledged_revision_id))

-- The head of a document is a revision of that document.
abbrev pub IsRooted : List Revision → Head → Type 0
IsRooted rows h =
    (h.revision ≡ none)
    ⊎ ((id : String) × (h.revision ≡ some id) × Names (revision_keys rows) id h.document)

abbrev pub IsBoundIn : List Session → PendingUpload → Type 0
IsBoundIn rows p = Names (session_keys rows) p.session_id p.document_id

abbrev pub IsKeptIn : List Revision → Checkpoint → Type 0
IsKeptIn rows c = Names (revision_keys rows) c.revision_id c.document_id

abbrev pub document_ids : List Document → List String
document_ids = map (λ (d : Document). d.id)

abbrev pub session_ids : List Session → List String
session_ids = map (λ (s : Session). s.id)

pub record IsConsistent (t : Tables) : Type 0 where
  pub documents : AreDistinct (document_ids t.documents)
  pub sessions : AreDistinct (session_ids t.sessions)
  pub bound : All (IsBoundIn t.sessions) t.pending_uploads
  pub rooted : All (λ d. IsRooted t.revisions (head_of d)) t.documents
  pub kept : All (IsKeptIn t.revisions) t.checkpoints
  pub agreed : All (λ d. All (Agrees (head_of d)) t.sessions) t.documents
