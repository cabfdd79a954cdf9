-- ===== src/Lib.antt =====
-- Verification of the ZenFM web front end.
--
-- ZenFM is a file manager: a server on the device, and a web front end (frontend/) that a browser
-- runs. The development models the front end's logic in TypeScript; the server, its plugin and the
-- Android wrapper are other programs, and what they answer is an argument of the model.
--
-- The parts and the files that model them:
-- Base: lists, options, comparisons and texts. A text is a list of UTF-16 code units.
-- Csv: frontend/src/csv.ts. `parse_csv` is `parseCsv`; `scan` is its loop, over the text itself in
--   place of an index, and `State` has the loop's variables.
-- Paths: `joinPath`, `filesRoute` and `fileRoute` of frontend/src/utils.ts.
-- Navigation: frontend/src/auth/navigation.ts, with every function of the file.
-- Client: frontend/src/api/client.ts. Client has the module's variables and the errors;
--   Client/Request is `request` and `requestBlob`, in two halves: what is handed to `fetch`
--   (`prepare`) and what is done with what it delivers (`complete`); Client/CopyStream is the loop of
--   `copyWithProgress`; Client/Upload is `uploadWithProgress` and Client/Resumable
--   `uploadResumable`, each a machine over the events that its request or library delivers; Client/Endpoints is `query`
--   and the table `api`.
-- Auth: frontend/src/auth/AuthProvider.tsx as a machine, one event for each callback; Auth/Routes
--   has the routes of frontend/src/App.tsx and where the forms of frontend/src/pages/LoginPage.tsx
--   and SetupPage.tsx navigate. Auth uses the client's failures, the routes use Navigation.
-- Uploads: `uploadFiles` of frontend/src/pages/FilesPage.tsx. Uploads/Progress has the numbers
--   that are shown, Uploads/Workers the workers that take the files and share an answer to a
--   conflict; a run is any list of steps of the workers, in any order. Uploads/Batches has what a
--   selection or a drop uploads, and the choice of the transport in `uploadFile`.
--   Uploads/Folders has the groups in which the folders of a batch are asked for, and Uploads/Queue
--   the queue of the batches (`safeUploadFiles`).
-- Mock: frontend/dev/mockApi.ts, the server that the front end is developed against: its paths,
--   the operations on its tree of files, and the request handler (Mock/Server) with its routes.
-- Entries: `FileEntry` of frontend/src/api/types.ts.
-- Browser: the list of a folder in frontend/src/pages/FilesPage.tsx: Browser/Sorting has the entries
--   that are visible and their order, Browser/Selection the selection, Browser/Drops what is dragged
--   and dropped, and Browser/Actions what the menus and the keys do. A drop proposes moves that
--   Dialogs/PathAction performs.
-- Dialogs: frontend/src/components/FileDialogs.tsx. Dialogs/Find is the search in a preview,
--   Dialogs/Editor the editor of a text file, Dialogs/Duplicate is `duplicateName`, and
--   Dialogs/PathAction the dialog that renames, moves and copies: its parts, what one request makes
--   of its state (Sending), one run and the runs that follow each other (Mutation).
-- Favorites, Locale and Markdown: frontend/src/components/FavoritesNav.tsx, frontend/src/i18n.ts and
--   frontend/src/markdown.ts.
-- Modals: frontend/src/modalNavigation.ts.
-- Examples: the theorems and some tests at concrete inputs.
--
-- Fuel and bounds. The inner loop of the copy stream runs on fuel, the length of its buffer, which
-- each round shortens. The loops over the matches of a search run on one more than the length of the
-- text, and a match is never empty; the loop for the name of a copy runs on one more than the number of
-- names, so one of its candidates is new; the slices of a level run on the number of its folders, and
-- the digits of a number on one more than the number. The rounds of a deadline timer are a list with
-- one entry for each round. All other loops follow their input. Limits of the source (rows, columns,
-- the timer's longest delay) are constants of the same value.
--
-- Not modelled: rendering, styles and translations; the browser's `fetch`, `XMLHttpRequest`, timers,
-- `URL`, `encodeURIComponent` and `localeCompare`, the router and the TUS, Markdown and query
-- libraries, whose results are arguments or whose functions are parameters; the times of change of the
-- mock's files; the percentages and the estimates of the remaining time, which are not whole numbers.
pub mod Base
pub mod Csv
pub mod Browser
pub mod Dialogs
pub mod Favorites
pub mod Locale
pub mod Markdown
pub mod Entries
pub mod Paths
pub mod Navigation
pub mod Client
pub mod Auth
pub mod Uploads
pub mod Mock
pub mod Modals
mod Examples
