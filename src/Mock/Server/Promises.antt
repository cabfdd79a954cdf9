-- ===== src/Mock/Server/Promises.antt =====
-- What calls of the mock server promise to later calls.
use zen_fm.Base.{
  ℕ, ◌≡◌, ◌≤◌, false, Option, none, some, if◌then◌else◌, Text, codes, text_eq, text_eq_refl, arith,
}
use zen_fm.Paths.{or_else}
use zen_fm.Mock.FilePaths.{normalize_path}
use zen_fm.Mock.Files.{FileKind}
use zen_fm.Mock.Files.Maps.{get-set}
use zen_fm.Mock.Server.{
  Server, Request, Body, Payload, Platform, problem, json, empty, content, signs_in, session,
  text_or_empty, or_reply,
}
use zen_fm.Mock.Server.Account.{log_in_with, change_password_with, count_points}
use zen_fm.Mock.Server.Tree.{mime_for, read_at, write_at, read_content, write_content}

-- After a change of the password that is accepted, a login is accepted with the new password and with
-- no other, and the new password has at least seven characters.
pub change_password-log_in :
    (s : Server) (b c : Body) (next given : Text) (p : Payload)
    → text_or_empty b.new_password ≡ next
    → (change_password_with s b).1 ≡ json 200 p
    → c.password ≡ some given
    → ((log_in_with (change_password_with s b).0 c).1 ≡ (
        if text_eq given next
        then signs_in (session s.settings.startup_directory)
        else problem 401 (codes "Invalid password.")))
      × (7 ≤ count_points false next)
unfolding change_password_with log_in_with count_points
change_password-log_in s b c next given p n ok g = ground arith

write_at-read_at :
    (platform : Platform) (s : Server) (r : Request) (n : ℕ) (target : Text)
    → (write_at platform s r target).1 ≡ empty n
    → (mime : Text) × ((read_at platform (write_at platform s r target).0 target).1
        ≡ content mime r.content)
unfolding write_at read_at
write_at-read_at platform s r n target h =
    let mime = or_else r.content_type (mime_for platform target) in
    (
      or_else mime (mime_for platform target),
      ground (
        arith,
        text_eq_refl target,
        get-set target target
            (record { kind = FileKind.file; content = r.content; mime_type = mime }) s.files,
      ),
    )

-- A write that is accepted is read back by every later reader of the path, byte by byte.
pub write_content-read_content :
    (platform : Platform) (s : Server) (r later : Request) (n : ℕ)
    → (write_content platform s r).1 ≡ empty n
    → later.path_param ≡ r.path_param
    → (mime : Text) × ((read_content platform (write_content platform s r).0 later).1
        ≡ content mime r.content)
unfolding write_content read_content
write_content-read_content platform s r later n h same =
    rw same (go (normalize_path (text_or_empty r.path_param)) h)
  where
    go :
        (o : Option Text)
        → (or_reply s (problem 400 (codes "Invalid path.")) o (write_at platform s r)).1 ≡ empty n
        → (mime : Text) × ((or_reply
              (or_reply s (problem 400 (codes "Invalid path.")) o (write_at platform s r)).0
              (problem 400 (codes "Invalid path."))
              o
              (read_at platform
                (or_reply s (problem 400 (codes "Invalid path.")) o (write_at platform s r)).0)).1
            ≡ content mime r.content)
    go none h = absurd (cc)
    go (some target) h = write_at-read_at platform s r n target h
