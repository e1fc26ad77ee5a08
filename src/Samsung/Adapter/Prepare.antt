-- ===== src/Samsung/Adapter/Prepare.antt =====
-- internal/samsung/adapter_command.go: what is checked of a command before the TV is asked anything.
-- `lower` is `strings.ToLower`.
use frame_tv_art_manager.Prelude.Int.{pos, is_positive, ltb_ℤ, is_negative, ℤ, ℤ-discrete}
use frame_tv_art_manager.Reconcile.Validate.{is_zero_digest}
use frame_tv_art_manager.Samsung.Errors.{Fault, ◌>>=◌, refused, answer, Reply}
use frame_tv_art_manager.Samsung.Types.{setting_valid, Command}
use frame_tv_art_manager.Prelude.{
  [], ◌∷◌, holds, true, ltb, codes, ◌=ₜ◌, base, length, ◌||◌, leb, is_abs, ◌&&◌, trim_space,
  is_blank, ℕ, if◌then◌else◌, not, List, Text, Bool,
}

-- What the file system says of the file of an upload: that it is a regular file, the same file once
-- opened, with its size and its SHA-256, or an error of the file system.
pub record FileFacts : Type 0 where
  pub regular : Bool
  pub same : Bool
  pub size : ℤ
  pub digest : List ℕ

-- `preparedUpload`.
pub record PreparedUpload : Type 0 where
  pub file_type : Text
  pub matte : Text
  pub portrait_matte : Text
  pub size : ℤ
  pub digest : List ℕ

-- `preparedCommand`. Only an upload has more than its command.
pub record Prepared : Type 0 where
  pub command : Command
  pub upload : PreparedUpload

abbrev no_upload : PreparedUpload
no_upload = record { file_type = []; matte = []; portrait_matte = []; size = pos 0; digest = [] }

unsafe_reply : {A : Type 0} → Reply A
unsafe_reply = refused (Fault.plain ∷ [])

-- `validateUploadMetadata`: the file type and the matte.
unfoldable pub validate_upload_metadata :
    (Text → Text)
    → (path name file_type matte portrait_matte : Text) (digest : List ℕ) (size : ℤ)
    → Reply (Text × Text)
unfolding unsafe_reply is_zero_digest
validate_upload_metadata lower path name file_type matte portrait_matte digest size =
    let type = lower (trim_space file_type) in
    if not (is_abs path) || not (base path =ₜ name) || not (base name =ₜ name) || is_blank name
    then unsafe_reply
    else if not (type =ₜ codes "jpg") && not (type =ₜ codes "png")
    then unsafe_reply
    else if not (is_positive size) || is_zero_digest digest
    then unsafe_reply
    else if is_blank matte || ltb 128 (length (trim_space matte))
    then unsafe_reply
    else if ltb 128 (length (trim_space portrait_matte))
    then unsafe_reply
    else answer (type, trim_space matte)

-- `openVerifiedUpload`.
unfoldable pub open_verified_upload :
    Reply FileFacts
    → (portrait_matte : Text) (digest : List ℕ) (size : ℤ) → Text × Text
    → Reply PreparedUpload
unfolding unsafe_reply ℤ-discrete
open_verified_upload (refused e) portrait_matte digest size checked = refused e
open_verified_upload (answer file) portrait_matte digest size (file_type, matte) =
    if not file.regular || not file.same || not (holds (ℤ-discrete file.size size))
    then unsafe_reply
    else if not (file.digest =ₜ digest)
    then unsafe_reply
    else answer (record {
      file_type = file_type;
      matte = matte;
      portrait_matte = trim_space portrait_matte;
      size = size;
      digest = digest;
    })

-- `validateContentID`.
unfoldable pub content_id_valid : Text → Bool
content_id_valid id = not (is_blank id) && leb (length (trim_space id)) 256

abbrev percent : ℤ → Bool
percent value = not (is_negative value) && not (ltb_ℤ (pos 100) value)

abbrev pub plainly : Command → Bool → Reply Prepared
plainly command valid =
    if valid
    then answer (record { command = command; upload = no_upload })
    else refused (Fault.plain ∷ [])

abbrev pub with_upload : Command → PreparedUpload → Reply Prepared
with_upload command upload = answer (record { command = command; upload = upload })

-- `prepareCommand`.
unfoldable pub prepare_command : (Text → Text) → Reply FileFacts → Command → Reply Prepared
unfolding validate_upload_metadata open_verified_upload content_id_valid setting_valid
prepare_command lower file (Command.upload path name file_type matte portrait_matte digest size) =
    do
      checked ← validate_upload_metadata lower path name file_type matte portrait_matte digest size
      upload ← open_verified_upload file portrait_matte digest size checked
      with_upload (Command.upload path name file_type matte portrait_matte digest size) upload
prepare_command lower file (Command.delete id) = plainly (Command.delete id) (content_id_valid id)
prepare_command lower file (Command.select id) = plainly (Command.select id) (content_id_valid id)
prepare_command lower file (Command.configure_slideshow previous desired) =
    plainly (Command.configure_slideshow previous desired)
      (setting_valid previous && setting_valid desired)
prepare_command lower file (Command.configure_brightness previous value) =
    plainly (Command.configure_brightness previous value) (percent previous && percent value)
prepare_command lower file Command.wake = plainly Command.wake true
prepare_command lower file Command.power_off_command = plainly Command.power_off_command true
