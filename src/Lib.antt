-- ===== src/Lib.antt =====
-- Root.ark (servidor-drive): a file server with accounts, shared folders and groups, a zero-knowledge
-- sync protocol with its desktop client, and the services around them. The server (server.js with the
-- modules of src/) and the client (sync-client/) share the protocol and the path rules.
--
-- The parts, the files that model them and the code they translate:
--
--   Sync           src/routes/sync.js, sync-client/rootark-sync-journal.js and
--                  sync-client/rootark-sync-protocol.js
--     Revision     compareRevisions, nextRevision; String.prototype.localeCompare is a Collation
--     Json         JSON values, String(value), JSON.stringify, UTF-8, canonicalize, canonicalJson
--     Protocol     id, revision, normalizeMetadata (Again and Settled: what is normalized stays so)
--     Header       createOperation up to its payload (create_header), aadFor
--     Envelope     normalizeAuthorization, decodeBase64Url, validateOperation
--     Sealing      encryptPayload, createOperation, decryptPayload, over a cipher (Aead)
--     Engine       SyncEngine of sync-client/rootark-sync-engine.js: Apply (keyFor, apply), Scan (scanFiles,
--                  and what reconcileLocal takes as changed)
--     Operation    an operation as validateOperation returns it
--     Store        SyncObjectStore: the objects, versions, revisions and seen operations of each user;
--                  put is the transaction (transact) around put_state, list and history read, open
--                  (Store.Opening) migrates a state of version 1
--     Journal      SyncJournal: enqueue, markSeen, update, replace, open, pending, hasSeen
--   Totp           src/services/totp.js (Base32, Otp) and src/services/totpPolicy.js (Policy)
--   Auth           src/middlewares/auth.js and permissions.js: Cookies (parseCookies), Tokens
--                  (verifyClaims), authenticate and authenticate_realtime, Permissions with
--                  getBasePermissions and normalizeUserPermissions of server.js
--   GroupKeys      src/services/groupKeySharing.js: Names (text, epoch), Wrap (aadFor,
--                  createOpaqueWrap), Validate (validateOpaqueWrap, unwrapOpaqueWrap,
--                  validateManifest), Sharing (the class GroupKeySharing)
--   Groups         AtomicGroupsStore of src/routes/groups.js, whose manifests GroupKeys.Validate checks
--   Access         who may read or edit a folder or a file, in server.js, over the permissions of Auth
--   Paths          sync-client/rootark-sync-paths.js
--   Resilience     src/services/deploymentResilience.js: provider codes, retryWithBackoff,
--                  runIdempotent
--   Downloads      parseRangeHeader and getShareLimitState of server.js
--   Scheduler      services/backupScheduler.js
--   Trash          services/trashService.js over repositories/trashRepository.js
--     Names        safeName, getAvailableRestoreName
--     Item         the items and the state of a remote deletion (normalizeTrashItem)
--     Repository   getTrashItem, saveTrashItem, listTrashItems, isFileTrashed of the JSON file
--     Deletion     the states of a remote deletion (remoteState, transition and their kind)
--     Remote       queueRemoteDeletion, completeRemoteDeletion, failRemoteDeletion, cancelRemoteDeletion
--     Claims       claimRemoteDeletion, releaseRemoteClaim, processRemoteDeletion
--     Drive        the directories and maps, and the metadata of a file in them
--     Files        moveFileToTrash and restoreFile
--   Prelude        what the others share: tests on numbers, lists, results, texts (lists of code
--                  points), objects used as dictionaries (Objects in the order of their names, TextMaps
--                  without it), decimal and base64url texts, and lemmas on them
--
-- A stored state is a record or an association list that each operation takes and returns; a request that
-- throws gives an error of a result type. A file write is an input that says whether it succeeds; the
-- clock, drawn identifiers and the environment are inputs as well. What is outside the repository is a
-- parameter: the HMAC of node:crypto (Totp.Otp.Hmac), its AES-256-GCM (Sync.Sealing.Aead) and its digest
-- of a file (Sync.Engine.Apply), jsonwebtoken (Auth.Context), WebCrypto and HPKE (GroupKeys.Wrap.Zk,
-- GroupKeys.Validate.Opener), localeCompare (Sync.Revision.Collation), the groups store and full Unicode
-- lower case in Access, and the rarer forms of Number in Downloads. A plain object that is
-- read by a name that every object inherits ("constructor") answers with a foreign value; Objects and
-- TextMaps say so where the code can be reached with such a name. An assignment to "__proto__" is left out.
--
-- Fuel: the inner loop of base32Encode runs on the number of bits, which falls by five in each round; a
-- decimal text on twenty rounds, more than a safe integer has digits; verifyTotp on the 2 * window + 1 steps
-- of its window, retryWithBackoff on its number of attempts, and the search for a free
-- name in getAvailableRestoreName on two more than the names of the directory.
--
-- Three interleavings are modelled as steps: wrapFor of GroupKeySharing, whose checks and whose push stand on
-- either side of a wait (begin_wrap, finish_wrap), processRemoteDeletion of the trash, which waits for the
-- provider (begin_remote_deletion, finish_remote_deletion), and the callback of the backup scheduler
-- (begin_run, end_run).
--
-- A JSON number is a whole one from 0 on, or another one by its text; the texts of the protocol are lists of
-- code points, those of the store are native ones.
--
-- Not modelled: the operations that the sync engine builds and sends and its pull, the routes and their
-- statuses, recovery codes and the sealing of secrets, manifest signatures, uploads, search, the
-- folders of the trash, backups and restores, the repositories, and the browser's client.
pub mod Prelude
pub mod Sync
pub mod Totp
pub mod Auth
pub mod GroupKeys
pub mod Groups
pub mod Access
pub mod Paths
pub mod Resilience
pub mod Downloads
pub mod Scheduler
pub mod Trash
