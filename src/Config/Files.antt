-- ===== src/Config/Files.antt =====
-- The files that internal/config/config.go reads: the configuration, tokens and extra certificates.
-- The file system, the environment and the parsing of URLs and certificates are arguments.
pub mod Checked
use homelab_evidence_mcp.Prelude.{
  ℕ, ◌%◌, ◌+◌, ◌⊎◌, inl, inr, Bool, false, true, not, ◌&&◌, ◌||◌, List, [], ◌∷◌, ◌++◌, Option, none,
  some, Text, ascii, text_beq, ltb, nat_beq, if◌then◌else◌, take,
}
use homelab_evidence_mcp.Redaction.Search.{contains, has_prefix}
use homelab_evidence_mcp.Http.Client.{Url, Library}
use homelab_evidence_mcp.Config.Types.{Config, Source}
use homelab_evidence_mcp.Config.Errors.{Errors}
use homelab_evidence_mcp.Config.Source.{is_empty}
use homelab_evidence_mcp.Config.Parse.{Outside, parse}

-- What Lstat and Stat say of a file; `identity` is what os.SameFile compares.
pub record Info : Type 0 where
  pub symlink : Bool
  pub regular : Bool
  pub identity : ℕ
  pub size : ℕ
  pub perm : ℕ

-- An open file: what Stat says of it and what can be read from it, or the errors.
pub record Handle : Type 0 where
  pub stat : Text ⊎ Info
  pub content : Text ⊎ Text

pub record FileSystem : Type 0 where
  pub windows : Bool
  pub lstat : Text → Text ⊎ Info
  pub open_file : Text → Text ⊎ Handle

-- mode.Perm()&0o077 != 0
unfoldable pub insecure_unix_permissions : FileSystem → Info → Bool
insecure_unix_permissions fs st = not fs.windows && not (nat_beq (st.perm % 64) 0)

unfoldable pub open_regular_unlinked_file : FileSystem → Text → Text ⊎ (Handle × Info)
open_regular_unlinked_file fs path = elim (fs.lstat path) [
  | inl e ↦ inl e
  | inr info ↦
      if info.symlink
      then inl (ascii "path must not be a symlink")
      else if not info.regular
      then inl (ascii "path is not a regular file")
      else elim (fs.open_file path) [
        | inl e ↦ inl e
        | inr f ↦ elim f.stat [
          | inl e ↦ inl e
          | inr st ↦
              if nat_beq info.identity st.identity
              then inr (f, st)
              else inl (ascii "file changed during the open operation")
        ]
      ]
]

-- `io.ReadAll` of a reader limited to a number of bytes.
abbrev pub read_limited : ℕ → Handle → Text ⊎ Text
read_limited n f = elim f.content [ inl e ↦ inl e | inr s ↦ inr (take n s) ]

pub data LoadError : Type 0 where
  failed : Text → LoadError
  invalid : Errors → LoadError

-- `LoadFile`
unfoldable pub load_file :
    {Regexp : Type 0} → Outside Regexp → FileSystem → Text → LoadError ⊎ Config
unfolding open_regular_unlinked_file insecure_unix_permissions
load_file o fs path =
    if is_empty path
    then inl (failed (ascii "config path is required"))
    else elim (open_regular_unlinked_file fs path) [
      | inl e ↦ inl (failed (ascii "config: " ++ e))
      | inr (f, st) ↦
          if ltb 1048576 st.size
          then inl (failed (ascii "config: file exceeds 1048576 bytes"))
          else if insecure_unix_permissions fs st
          then inl (
              failed (ascii "config: file is group or world accessible (use mode 0600 or tighter)"))
          else elim (read_limited 1048577 f) [
            | inl e ↦ inl (failed (ascii "config read: " ++ e))
            | inr raw ↦ elim (parse o raw) [ inl es ↦ inl (invalid es) | inr c ↦ inr c ]
          ]
    ]

-- What `readSecretFile` needs of net/url besides the parser: the text of its errors, and Opaque.
pub record UrlExtras : Type 0 where
  pub parse_error : Text → Text
  pub opaque : Url → Text

module _ (lib : Library) (urls : UrlExtras) (fs : FileSystem) where
  -- The path of a token file, which may be written as a URL.
  unfoldable pub secret_path : Text → Text ⊎ Text
  secret_path path =
      if not (has_prefix path (ascii "file://")) then inr path else elim (lib.parse path) [
        | none ↦ inl (urls.parse_error path)
        | some u ↦
            if not (is_empty u.host)
              || (u.has_user || (not (is_empty u.raw_query) || not (is_empty u.fragment)))
            then inl (ascii "token file URL must not contain host, userinfo, query, or fragment")
            else inr (if is_empty u.path then urls.opaque u else u.path)
      ]

  abbrev open_error : Text → Text
  open_error e =
      if contains e (ascii "symlink")
      then ascii "token file must not be a symlink"
      else if contains e (ascii "regular")
      then ascii "token file is not a regular file"
      else e

  unfoldable pub read_secret_file : Text → Text ⊎ Text
  unfolding secret_path open_regular_unlinked_file insecure_unix_permissions
  read_secret_file path = elim (secret_path path) [
    | inl e ↦ inl e
    | inr file ↦ elim (open_regular_unlinked_file fs file) [
      | inl e ↦ inl (open_error e)
      | inr (f, st) ↦
          if ltb 4096 st.size
          then inl (ascii "token file exceeds 4KiB")
          else if insecure_unix_permissions fs st
          then inl (ascii "token file is group or world accessible")
          else elim (read_limited 4097 f) [
            | inl e ↦ inl e
            | inr b ↦
                let value = lib.trim_space b in
                if is_empty value then inl (ascii "token file is empty") else inr value
          ]
    ]
  ]

  -- `ResolveToken`, with the environment as a function.
  unfoldable pub resolve_token : (Text → Text) → Source → Text ⊎ Text
  unfolding read_secret_file
  resolve_token getenv src =
      let v = lib.trim_space (getenv src.token_env) in
      if not (is_empty src.token_env)
      then if is_empty v
        then inl (ascii "environment variable " ++ (src.token_env ++ ascii " is empty"))
        else inr v
      else if not (is_empty src.token_file)
      then read_secret_file src.token_file
      else inr []

-- `LoadExtraCertPool`: the certificates that are added to the system's, if any. `has_certificates`
-- is AppendCertsFromPEM.
unfoldable pub load_extra_cert_pool : (Text → Bool) → FileSystem → Text → Text ⊎ Option Text
unfolding open_regular_unlinked_file
load_extra_cert_pool has_certificates fs path =
    if is_empty path then inr none else elim (open_regular_unlinked_file fs path) [
      | inl e ↦ inl (ascii "tls.ca_file: " ++ e)
      | inr (f, st) ↦
          if ltb 1048576 st.size
          then inl (ascii "tls.ca_file exceeds 1MiB")
          else elim (read_limited 1048577 f) [
            | inl e ↦ inl (ascii "tls.ca_file: " ++ e)
            | inr pem ↦
                if not (has_certificates pem)
                then inl (ascii "tls.ca_file: no certificates found")
                else inr (some pem)
          ]
    ]
