-- ===== src/Rpc/Server/Accept.antt =====
-- `RpcServer` of src/rpc/server.rs: the accept loop, and the task that it spawns for each
-- connection. The tasks share the registry and the files, and take turns message by message.
use arcticwolf.Base.{ℕ, true, false, Option, none, some, [], ◌++◌, ◌≡◌}
use mathlib.Core.Logic.{ite}
use native.Mathlib.Decide.{ℕ_discrete}
use arcticwolf.Base.Text.{Text, Bytes}
use arcticwolf.Fsal.Filesystem.{Filesystem}
use arcticwolf.Protocol.Xdr.{Xdr}
use arcticwolf.Rpc.Server.{Shared, respond, read_fragment, no_header, cut_short, got}
use arcticwolf.Nfs.Kept.{IsKept}
use arcticwolf.Rpc.Server.Kept.{OfFiles, respond-Kept}

module _ (x : Xdr) (F : Filesystem) where
  pub record RpcServer : Type 0 where
    pub addr : Text
    pub shared : Shared x F

  -- A connection in `handle_connection`: the bytes still to come, and the buffer.
  pub record Task : Type 0 where
    pub input : Bytes
    pub buffer : Bytes

  -- A server whose listener is bound, and its connections.
  pub record Running : Type 0 where
    pub server : RpcServer
    pub tasks : ℕ → Option Task

  abbrev pub set_task : ℕ → Option Task → (ℕ → Option Task) → ℕ → Option Task
  set_task i t tasks j = ite (ℕ_discrete i j) t (tasks j)

  -- The server after a task has answered a message, and what the task keeps in its buffer.
  abbrev pub answered : Bytes → RpcServer → RpcServer
  answered message server = record server { shared = (respond x F message server.shared).0 }

  abbrev pub left_over : Bytes → RpcServer → Bytes
  left_over message server = elim (respond x F message server.shared).1 [
    | some response ↦ []
    | none ↦ message
  ]

  -- What happens next: a connection comes in, or a task reads a fragment, answers a message or ends.
  pub data Step (s : Running) : Running → Type 0 where
    accept :
        (i : ℕ) (input : Bytes)
        → s.tasks i ≡ none
        → Step s
            (record s { tasks = set_task i (some (record { input = input; buffer = [] })) s.tasks })
    read :
        (i : ℕ) {t : Task} {fragment rest : Bytes}
        → s.tasks i ≡ some t
        → read_fragment t.input ≡ got false fragment rest
        → Step s (record s {
          tasks =
              set_task i (some (record { input = rest; buffer = t.buffer ++ fragment })) s.tasks;
        })
    answer :
        (i : ℕ) {t : Task} {fragment rest : Bytes}
        → s.tasks i ≡ some t
        → read_fragment t.input ≡ got true fragment rest
        → Step s (record {
          server = answered (t.buffer ++ fragment) s.server;
          tasks =
              set_task i
                (some (record { input = rest; buffer = left_over (t.buffer ++ fragment) s.server }))
                s.tasks;
        })
    close :
        (i : ℕ) {t : Task}
        → s.tasks i ≡ some t
        → read_fragment t.input ≡ no_header
        → Step s (record s { tasks = set_task i none s.tasks })
    break_off :
        (i : ℕ) {t : Task}
        → s.tasks i ≡ some t
        → read_fragment t.input ≡ cut_short
        → Step s (record s { tasks = set_task i none s.tasks })

  pub data Run (s : Running) : Running → Type 0 where
    here : Run s s
    later : {t u : Running} → Run s t → Step t u → Run s u

  -- `run`, before the first connection.
  abbrev pub listening : RpcServer → Running
  listening server = record { server = server; tasks = λ i. none }

  module _ {P : F.State → Type 0} (k : IsKept F P) where
    step-Kept :
        {s t : Running} → Step s t → OfFiles x F k s.server.shared → OfFiles x F k t.server.shared
    step-Kept (accept i input free) p = p
    step-Kept (read i at e) p = p
    step-Kept {s} (answer i {t} {fragment} at e) p =
        respond-Kept x F k (t.buffer ++ fragment) s.server.shared p
    step-Kept (close i at e) p = p
    step-Kept (break_off i at e) p = p

    -- What the calls of the backend keep, the server keeps, whatever its clients send.
    pub run-Kept :
        {s t : Running} → Run s t → OfFiles x F k s.server.shared → OfFiles x F k t.server.shared
    run-Kept here p = p
    run-Kept (later r st) p = step-Kept st (run-Kept r p)
