-- ===== src/Inbox/Endpoints.antt =====
-- The owner's endpoints for the drop folder: `inbox_list`, `inbox_accept` and `inbox_discard` of
-- crates/doclinkd/src/admin.rs.
use doc_link.Inbox.{Disk, Folder, InboxError, invalid_name, not_found, io}
use doc_link.Inbox.Owner.{Folders, InboxEntry, list, accept, discard}
use doc_link.Protocol.{HttpError, http_error, lit}
use doc_link.Base.Results.{Result, ok, err}
use doc_link.Base.{Text, Option, none, some, List}

-- `inbox_err`
unfoldable pub inbox_err : InboxError → HttpError
inbox_err invalid_name = http_error 400 (lit "invalid inbox file name")
inbox_err not_found = http_error 404 (lit "inbox file not found")
inbox_err io = http_error 500 (lit "inbox operation failed")

abbrev pub mapped {ℓ} : {A : Type ℓ} → Result InboxError A → Result HttpError A
mapped (ok a) = ok a
mapped (err e) = err (inbox_err e)

-- `inbox_list`
unfoldable pub inbox_list : Disk → Folder → Result HttpError (List InboxEntry)
unfolding inbox_err list
inbox_list disk d = mapped (list disk d)

-- `inbox_accept`; `none` is a search for a name that did not end.
unfoldable pub inbox_accept : Disk → Folders → Text → Option (Folders × Result HttpError Text)
unfolding inbox_err accept
inbox_accept disk s name = elim (accept disk s name) [
  | none ↦ none
  | some (after, r) ↦ some (after, mapped r)
]

-- `inbox_discard`
unfoldable pub inbox_discard : Disk → Folder → Text → Folder × Result {0} HttpError Unit
unfolding inbox_err discard
inbox_discard disk d name = let (after, r) = discard disk d name in (after, mapped r)
