-- ===== src/World.antt =====
-- What the server takes from its surroundings: the operating system's file calls, and the Wren
-- interpreter behind `bialet_run`. These are parameters; no law is assumed of them here.
use bialet.Prelude.{ℕ, Option, Bytes}
use bialet.Server.Response.{Response}

-- `S_ISREG`, `S_ISDIR`, and the rest.
pub data FileKind : Type 0 where
  regular directory other : FileKind

-- `struct HttpMessage`; `headers` is never filled in.
pub record HttpMessage : Type 0 where
  pub message : Bytes
  pub method : Bytes
  pub uri : Bytes
  pub routes : Bytes

-- A descriptor is a number; a call that fails gives `none`.
pub record World : Type 0 where
  -- `stat` and `lstat`, the kind of what they find.
  pub stat : Bytes → Option FileKind
  pub lstat : Bytes → Option FileKind
  -- `realpath` into a buffer of `PATH_MAX` bytes.
  pub realpath : Bytes → Option Bytes
  -- `open("/", O_RDONLY | O_DIRECTORY | O_CLOEXEC)`.
  pub open_root : Option ℕ
  -- `openat(dirfd, name, O_RDONLY | O_CLOEXEC | O_NOFOLLOW)`.
  pub openat : ℕ → Bytes → Option ℕ
  -- The whole file behind a descriptor: `none` where `fdopen`, `fseek`, `ftell` or `fread` fails.
  pub read_all : ℕ → Option Bytes
  -- `bialet_run(module, source, message)`, the interpreter's answer.
  pub bialet_run : Bytes → Bytes → Option HttpMessage → Response
