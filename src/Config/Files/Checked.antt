-- ===== src/Config/Files/Checked.antt =====
-- The files that are accepted.
use homelab_evidence_mcp.Prelude.{
  ◌≡◌, sym, ap, ◌∙◌, ◌⊎◌, inl, inr, ℕ, ◌/◌, ◌%◌, ◌≤◌, false, true, ◌&&◌, Text, Sum-cases,
  Bool-cases, arith,
}
use homelab_evidence_mcp.Http.Client.{Library}
use homelab_evidence_mcp.Config.Types.{Config, Source}
use homelab_evidence_mcp.Config.Source.{is_empty}
use homelab_evidence_mcp.Config.Parse.{Outside, parse}
use homelab_evidence_mcp.Config.Parse.Accepted.{IsAccepted, parse-IsAccepted}
use homelab_evidence_mcp.Config.Files.{
  Info, Handle, FileSystem, insecure_unix_permissions, open_regular_unlinked_file, read_limited,
  load_file, UrlExtras, secret_path, read_secret_file, resolve_token,
}

-- An open file that is the regular file that stands under the path itself.
pub record IsOpened (fs : FileSystem) (path : Text) (f : Handle) (st : Info) : Type 0 where
  pub info : Info
  pub found : fs.lstat path ≡ inr info
  pub no_symlink : info.symlink ≡ false
  pub regular : info.regular ≡ true
  pub opened : fs.open_file path ≡ inr f
  pub stat : f.stat ≡ inr st
  pub same : info.identity ≡ st.identity

open_regular_unlinked_file-IsOpened :
    (fs : FileSystem) (path : Text) (f : Handle) (st : Info)
    → open_regular_unlinked_file fs path ≡ inr (f, st)
    → IsOpened fs path f st
unfolding open_regular_unlinked_file
open_regular_unlinked_file-IsOpened fs path f st h = elim (Sum-cases (fs.lstat path)) [
  | inl (e, q) ↦ ground arith
  | inr (info, q) ↦ elim (Sum-cases (fs.open_file path)) [
    | inl (e, r) ↦ ground arith
    | inr (g, r) ↦ elim (Sum-cases g.stat) [
      | inl (e, t) ↦ ground arith
      | inr (su, t) ↦
          let eq : (g ≡ f) × (su ≡ st) = (ground arith, ground arith) in
          record {
            info = info;
            found = q;
            no_symlink = ground arith;
            regular = ground arith;
            opened = r ∙ ap inr eq.0;
            stat = sym (ap (λ x. x.stat) eq.0) ∙ t ∙ ap inr eq.1;
            same = ground arith;
          }
    ]
  ]
]

-- The bits of a mode that give access to the group, and those that give access to others.
abbrev pub group_bits : ℕ → ℕ
group_bits perm = perm / 8 % 8

abbrev pub other_bits : ℕ → ℕ
other_bits perm = perm % 8

-- Neither the group nor others have a bit of access, on a system that has such bits.
abbrev pub IsOwnerOnly : FileSystem → Info → Type 0
IsOwnerOnly fs st = fs.windows ≡ false → (group_bits st.perm ≡ 0) × (other_bits st.perm ≡ 0)

insecure_unix_permissions-IsOwnerOnly :
    (fs : FileSystem) (st : Info) → insecure_unix_permissions fs st ≡ false → IsOwnerOnly fs st
unfolding insecure_unix_permissions
insecure_unix_permissions-IsOwnerOnly fs st h unix =
    let none : st.perm % 64 ≡ 0 = ground arith in (omega arith, omega arith)

-- A file that only its owner can read or write, of a limited size.
pub record IsPrivate (fs : FileSystem) (most : ℕ) (path : Text) (f : Handle) (st : Info)
    : Type 0 where
  pub opened : IsOpened fs path f st
  pub small : st.size ≤ most
  pub secure : IsOwnerOnly fs st

module _ {Regexp : Type 0} (o : Outside Regexp) (fs : FileSystem) where
  -- A configuration that `LoadFile` returns was read from a regular file under the path itself, no
  -- symbolic link, of at most 1 MiB, whose mode, except on Windows, has no bit of access for the
  -- group or for others; it is what `Parse` makes of the content, and accepted in every part.
  pub load_file-IsPrivate :
      (path : Text) (c : Config)
      → load_file o fs path ≡ inr c
      → (f : Handle) × ((st : Info) × ((raw : Text) × (IsPrivate fs 1048576 path f st
              × ((read_limited 1048577 f ≡ inr raw) × ((parse o raw ≡ inr c) × IsAccepted o c)))))
  unfolding load_file
  load_file-IsPrivate path c h = elim (Sum-cases (open_regular_unlinked_file fs path)) [
    | inl (e, q) ↦ ground arith
    | inr ((f, st), q) ↦ elim (Sum-cases (read_limited 1048577 f)) [
      | inl (e, r) ↦ ground arith
      | inr (raw, r) ↦ elim (Sum-cases (parse o raw)) [
        | inl (es, p) ↦ ground arith
        | inr (d, p) ↦
            let eq : d ≡ c = ground arith in
            let parsed : parse o raw ≡ inr c = p ∙ ap inr eq in
            (
              f,
              (
                st,
                (
                  raw,
                  (
                    record {
                      opened = open_regular_unlinked_file-IsOpened fs path f st q;
                      small = ground arith;
                      secure = insecure_unix_permissions-IsOwnerOnly fs st (ground arith);
                    },
                    (r, (parsed, parse-IsAccepted o raw c parsed)),
                  ),
                ),
              ),
            )
      ]
    ]
  ]

module _ (lib : Library) (urls : UrlExtras) (fs : FileSystem) where
  -- A token that a file gave.
  pub record IsFromFile (path token : Text) : Type 0 where
    pub file : Text
    pub file_of : secret_path lib urls fs path ≡ inr file
    pub handle : Handle
    pub info : Info
    pub private : IsPrivate fs 4096 file handle info
    pub content : Text
    pub read : read_limited 4097 handle ≡ inr content
    pub trimmed : token ≡ lib.trim_space content
    pub given : is_empty token ≡ false

  pub read_secret_file-IsFromFile :
      (path token : Text) → read_secret_file lib urls fs path ≡ inr token → IsFromFile path token
  unfolding read_secret_file
  read_secret_file-IsFromFile path token h = elim (Sum-cases (secret_path lib urls fs path)) [
    | inl (e, q) ↦ ground arith
    | inr (file, q) ↦ elim (Sum-cases (open_regular_unlinked_file fs file)) [
      | inl (e, r) ↦ ground arith
      | inr ((f, st), r) ↦ elim (Sum-cases (read_limited 4097 f)) [
        | inl (e, t) ↦ ground arith
        | inr (b, t) ↦ record {
          file = file;
          file_of = q;
          handle = f;
          info = st;
          private = record {
            opened = open_regular_unlinked_file-IsOpened fs file f st r;
            small = ground arith;
            secure = insecure_unix_permissions-IsOwnerOnly fs st (ground arith);
          };
          content = b;
          read = t;
          trimmed = ground arith;
          given = ground arith;
        }
      ]
    ]
  ]

  -- A token that `ResolveToken` returns for a source with a place for it is not empty, and is the
  -- trimmed value of the environment variable, or else the trimmed content of a private, regular
  -- file of at most 4 KiB.
  resolve_token_lem :
      (getenv : Text → Text) (src : Source) (token : Text)
      → resolve_token lib urls fs getenv src ≡ inr token
      → (is_empty src.token_env && is_empty src.token_file) ≡ false
      → (is_empty token ≡ false)
        × ((token ≡ lib.trim_space (getenv src.token_env)) ⊎ IsFromFile src.token_file token)
  unfolding resolve_token
  resolve_token_lem getenv src token h k = elim (Bool-cases (is_empty src.token_env)) [
    | inr e ↦ (ground arith, inl (ground arith))
    | inl e ↦
        let from = read_secret_file-IsFromFile src.token_file token (ground arith) in
        (from.given, inr from)
  ]
