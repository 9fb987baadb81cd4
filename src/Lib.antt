-- ===== src/Lib.antt =====
-- The client of GoThrough, a server for passing files and snippets between devices: the logic
-- under frontend/src that uploads files, loads and polls the server's data, and edits text files.
--
-- The parts and how they interact. The upload queue (frontend/src/hooks/useUploadQueue.ts) holds
-- the files that were selected; its run of two workers gives one file at a time to the engine
-- (frontend/src/features/upload/engine.ts), which opens a session, sends the file in chunks by
-- three workers of its own, and asks the server to publish it. The engine and the publication
-- (completeUpload of frontend/src/services/upload.ts) wait as the retry policy says
-- (frontend/src/utils/uploadRetry.ts); the queue times the files by a stopwatch
-- (frontend/src/utils/elapsed.ts) and describes failures by frontend/src/services/errors.ts. The
-- pages load data by frontend/src/hooks/useRemoteData.ts, which
-- frontend/src/hooks/useAutoRefresh.ts polls, and edit a file in
-- frontend/src/components/FilePreview.tsx. The upload page offers the queue's actions as buttons
-- and hands it what is dropped (frontend/src/utils/droppedFiles.ts); all pages stand behind the
-- access gate (frontend/src/components/AccessGate.tsx).
--
-- Which file models what:
--   Base            Boolean tests, lists, texts and decimals over native numbers
--   Messages        i18n/messages.ts: a message is a text or a key with values
--   Upload.Types    types/upload.ts and config/upload.ts
--   Upload.FileKey  getUploadPath and getFileKey; Upload.Progress confirmChunk, recalcLoadedBytes;
--                   Upload.Snapshot createUploadSnapshot
--   Upload.Retry    uploadRetryDelay and isCanceledError
--   Upload.Complete completeUpload, a loop over what the server and the user do in each round
--   Upload.Requests the request of uploadChunk
--   Server          the server's end of that request: the POST routes of
--                   internal/router/router.go and UploadChunk of internal/handler/upload.go;
--                   Server.Delivery what axios, the browser and gin carry between the two
--   Upload.Engine   transferFile: State and Workers have a worker's turns, Protocol the body, the
--                   events and the step; the other files have the proofs
--   Queue           useUploadQueue: State the refs and the React state, Actions what the user
--                   does, Run the workers and uploadFileChunked, Speed the timer of the
--                   speeds, Machine the step
--   Elapsed, Errors createElapsedClock; apiErrorDescriptor, with its grounds in Errors.Grounds
--   Remote          useRemoteData, AutoRefresh useAutoRefresh
--   Clipboard       frontend/src/pages/Clipboard/ClipboardPage.tsx: its mutations, copying, the
--                   choice of an image, and the panels
--   Listing         conditionalGet of services/conditional.ts and the loaders that keep its
--                   validator, over Remote: what FilesPage does with its list
--   Files           frontend/src/pages/Files/FilesPage.tsx: Paths and Folders the folders of the
--                   names and the directory shown, Browse filtering and sorting, Reach what is
--                   shown, Deletion the page with its handlers; Pages has its pages of the list
--   UploadPage      pages/Upload/UploadPage.tsx, the buttons over the queue, and UploadFileRow.tsx
--   Dropped         collectDroppedFiles of utils/droppedFiles.ts
--   Durations       formatElapsed and formatETA of utils/format.ts
--   Access          components/AccessGate.tsx with the interceptor of services/http.ts
--   Preview         FilePreview with the draft of contexts/EditorDraftProvider.tsx
--
-- A hook or an async function is a record of state and a step over events: a handler, a promise
-- that settles, a turn after an await. What stands between two awaits is one step, and `run` takes
-- any list of events, so every interleaving is a list. An AbortController is a Boolean of the
-- object that holds it, or the number of its request; an item object of the queue has a number.
-- A failure is a value, and a thrown error is a constructor.
--
-- Numbers are natural: byte counts, indices, and times in whole milliseconds of a clock that is
-- given to each step. Math.ceil of a quotient is written with division, a speed is rounded down, and a subtraction of times
-- stops at 0. Texts are lists of UTF-16 code units.
--
-- Fuel and bounds: completeUpload takes fuel for its rounds, of which three are enough because the
-- retry policy grants two; `decimal` takes one digit of fuel more than the number; the climb to the
-- nearest directory takes as many rounds as the path has parts, since each takes a part off. All
-- else is structural; a directory that is dropped answers a finite number of batches.
--
-- Parameters: Date.parse, i18n.exists, the translation function, the identity of objects where it
-- is compared, the abort signal's reason, the length of the text encoder's output, and for the file
-- list toLocaleLowerCase, localeCompare, timestampValue and the array's sort, of which only is
-- supposed that it keeps the same elements. What the server answers comes with the events; that it
-- is honest, where a theorem needs it, says that an etag is given out with one list only. The
-- record Wire has what axios and the browser send for a request and what gin reads of it, with the
-- laws of their documentation: a blob, its type and the parameters arrive as they are given,
-- and a form by its fields under a type of the browser's.
--
-- Not modelled: of the server, which is written in Go, all but the route and the handler of a
-- chunk, which end where the chunk is written; the drawing of the pages; sizes and dates for
-- display, which are computed by floating-point numbers and the browser; the choice of language; and
-- the requests themselves, which the browser and axios make.
pub mod Access
pub mod AutoRefresh
pub mod Base
pub mod Clipboard
pub mod Dropped
pub mod Durations
pub mod Elapsed
pub mod Errors
pub mod Files
pub mod Listing
pub mod Messages
pub mod Pages
pub mod Preview
pub mod Queue
pub mod Remote
mod Scenarios
pub mod Server
pub mod Upload
pub mod UploadPage
