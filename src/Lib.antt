-- ===== src/Lib.antt =====
-- ByteVault, a service for storing and sharing files: a model of the services that keep its files,
-- folders, links for guests and subscriptions, with proofs. The program is a Go server; its services
-- (internal/service) work on tables through repositories (internal/repository), on an object storage
-- (internal/storage) and on a scheduler (internal/notification/scheduler).
--
-- Files:
--   Prelude: numbers, lists and tests that all parts share. Prelude/Table: SQL statements on a list
--     of rows. Prelude/Action: what a method does and returns. An action takes the world (the time,
--     a schedule of failures, the state) to a result and a new world; a query or an external call
--     fails where the schedule says so; what was written before an error stays written. `attempt`
--     and `ignore` are Go's `v, err := f()` and `_ = f()`.
--   RateLimiter: internal/middleware/api_key_rate_limiter.go (`Allow`, `cleanup`).
--   Ephemeral: internal/model/ephemeral_share.go and the state of
--     internal/service/ephemeral_service.go: the tables, the progress map in memory, and the calls
--     made to the storage. Ephemeral/Repository: the statements of
--     internal/repository/ephemeral_share_repository.go and ephemeral_setting_repository.go.
--     Ephemeral/Upload: CreateUploadSession, CreateMultipartUploadSession, RefreshMultipartPartURLs,
--     UpdateLiveProgress, CompleteMultipartUpload, AbortMultipartUpload. Ephemeral/Download:
--     GetMetadata, RequestDownload, AdminBurnShare. Ephemeral/Listing: ListAllForAdmin.
--     Ephemeral/Purge: PurgeExpiredAndBurned, and cleanupEphemeral of
--     internal/notification/scheduler/scheduler.go. Ephemeral/Calls: histories of calls.
--     Ephemeral/Change is the specification of the table of shares, a state machine; Quiet, Writes,
--     Refines, RefinesDownload and RefinesPurge show that the methods follow it; the other files
--     draw on that.
--   Invites: internal/model/upload_invite.go and the state of
--     internal/service/upload_invite_service.go, on top of the file and folder services of Vault.
--     Invites/Folders: ensureReceivedFolder, ensureSubFolder and the calls of those services.
--     Invites/Repository: the statements of internal/repository/upload_invite_repository.go.
--     Invites/Owner: CreateInvite, RevokeInvite, GetInviteInfo, CleanupAbandonedUploads.
--     Invites/Guest: VerifyPasscode, validateGuestSession, GuestCreateUploadSession,
--     GuestCompleteUpload, and the values in Redis (internal/notification/queue/redis.go).
--     Invites/Notify: the batched notifications. Invites/Calls: histories of calls. Capacity and
--     Bounded: what every call keeps.
--   Content: AllowedMimeTypes, DetectHEICMagicBytes, ValidateMagicBytes and areTypesCompatible of
--     internal/service/file_service.go, on texts as lists of bytes (Prelude/Text).
--   Vault: internal/model/file.go, internal/model/folder.go and the state of
--     internal/service/file_service.go and folder_service.go. Vault/FileRepository and
--     Vault/FolderRepository: the statements of internal/repository/file_repository.go and
--     folder_repository.go. Vault/Uploads: validateFile, CheckConflicts,
--     ResolveNonConflictingFilename, CreateUploadSession. Vault/Completion: CompleteUpload, Upload.
--     Vault/Multipart: the uploads in parts. Vault/Access: downloads, metadata, thumbnails,
--     isAccessiblePublicly, shouldRecordEgress. Vault/Owner: ToggleShareStatus, MoveFile,
--     RenameFile, Delete. Vault/Folders: the folder service. Vault/Calls: histories of calls of the
--     file service. Ownership, Neutral, Rows and NewFiles hold what the methods keep; Others,
--     Visitors, Public, Quota, Names, Aborts, Served, Removal and Sharing are about what their names
--     say.
--   Billing: internal/model/subscription.go, internal/model/package.go and the state of
--     internal/service/subscription_service.go. Billing/Repository: the statements of
--     internal/repository/subscription_repository.go, and those of package_repository.go and
--     user_repository.go that the service uses. Billing/Service: Subscribe, Verify, Upgrade,
--     Downgrade, Cancel, CancelPendingDowngrade, GetCurrentSubscription. Billing/Admin: AdminCancel,
--     AdminAssign, SyncWithRazorpay. Billing/Scheduler: ProcessScheduledDowngrades.
--     Billing/Webhooks: internal/handler/webhook_handler.go (HandleRazorpayWebhook, processEvent),
--     RecordCharge of internal/service/transaction_service.go and the statements of
--     webhook_event_repository.go and transaction_repository.go. Transitions is about changes of
--     plan, Orphans about what is left with Razorpay, Periods about the end of a period, Charges
--     about the payments that webhooks record, Repeats about a webhook that comes again.
--
-- How the model corresponds to the code: a method of the service is a definition of the same name in
-- snake case. A text is a number where the code only compares it, 0 the empty text, and a list of
-- bytes where the code looks into it; a time is a number of nanoseconds; a size limit in gigabytes
-- is kept in bytes. The storage, bcrypt, Go's http.DetectContentType, the random tokens, the layout
-- of a storage key, what Razorpay answers, Go's AddDate and the floating point division of a total
-- into price and tax, and the expressions that clean a label and shorten a token are parameters
-- (Env, WebhookEnv). Texts are lowered on ASCII letters only. A table is the list of its rows, the
-- newest first. A method runs without another one in between, except in Ephemeral/Race, which lets
-- the second halves of several downloads run after their checks. Within one call the clock stands
-- still, and no other request comes between the load and the store of the egress times
-- (shouldRecordEgress). An external call that changes something may take effect and still report a
-- failure.
--
-- Bounds: the loop of the purge is given a number of rounds and answers false if they run out; a
-- round for each full batch of 100 rows and one more are enough when nothing fails. The loops over
-- parts and part numbers run through their lists. The search for a free name tries at most 100
-- candidates and the walk up the folders at most 5 levels, as in the code; the recursive queries
-- stop at depth 10.
--
-- Not modelled: the sending of notifications, cancellation of a context, the log, the columns that
-- no method reads, the HTTP handlers, the activity log, the listings of files with search, the
-- metrics of an upload, the order by name of listings of folders, the reminders, metadata, listings,
-- invoices and audit log of subscriptions, and the other services of the program (links, accounts).
pub mod Prelude
pub mod RateLimiter
pub mod Ephemeral
pub mod Invites
pub mod Content
pub mod Vault
pub mod Billing
