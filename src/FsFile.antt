-- ===== src/FsFile.antt =====
-- libsrc/libfs/File.cpp: the class `File`, an object of the file system with a stream.
--
-- `none` is undefined behaviour, or that a shell command does not come back or ran out of fuel. The streams throw no
-- exception, since none asks for it.
pub mod Tracking
mod Tests
use cpp_temp_learn.Prelude.{
  ℕ, Bool, true, false, not, Option, none, some, Bytes, is_empty, if◌then◌else◌,
}
use cpp_temp_learn.FileSystem.{regular_file, Os}
use cpp_temp_learn.Shell.Execution.{ShellOs}
use cpp_temp_learn.FsObject.{
  FsObject, fs_object, assign_object, set_object_path, analyzed, is_exist,
}
use cpp_temp_learn.FsObject.Making.{get_absolute_path}
use cpp_temp_learn.FsObject.Commands.{move, remove}

-- `ios_base::openmode`
pub record OpenMode : Type 0 where
  pub input : Bool
  pub output : Bool
  pub append : Bool
  pub binary : Bool

-- `std::fstream::open` of a closed stream, which says whether it is open then, and `close`.
pub record StreamOs (World : Type 0) : Type 0 where
  pub open_stream : World → Bytes → OpenMode → World × Bool
  pub close_stream : World → World

-- The stream, if it is open, with the path that it was opened at.
pub record File : Type 0 where
  pub as_object : FsObject
  pub stream : Option Bytes

-- `File(const std::string &)`, `File(std::string &&)` and `File(const char *)`
unfoldable pub new_file : Bytes → File
unfolding fs_object
new_file s = record {
  as_object = record (fs_object s) { object_type = regular_file };
  stream = none;
}

-- `operator=`, both of which call `Path::operator=(const Path &)`: the stream is kept.
unfoldable pub assign_file : File → File → File
unfolding assign_object
assign_file this source = record this { as_object = assign_object this.as_object source.as_object }

-- The modes of `openRead`, `openWrite`, `openAppend` and `openReadWrite`.
unfoldable pub read_mode : Bool → OpenMode
read_mode text = record { input = true; output = false; append = false; binary = not text }

unfoldable pub write_mode : Bool → OpenMode
write_mode text = record { input = false; output = true; append = false; binary = not text }

unfoldable pub append_mode : Bool → OpenMode
append_mode text = record { input = false; output = true; append = true; binary = not text }

unfoldable pub read_write_mode : Bool → OpenMode
read_write_mode text = record { input = true; output = true; append = false; binary = not text }

module _ (os : Os) (streams : StreamOs os.World) where
  open os use {World}
  open streams use {open_stream, close_stream}

  unfoldable pub check_and_close : World → File → World × File
  check_and_close w f = elim f.stream [
    | none ↦ (w, f)
    | some at ↦ (close_stream w, record f { stream = none })
  ]

  unfoldable pub set_file_path : World → File → Bytes → World × File
  unfolding check_and_close set_object_path
  set_file_path w f path =
      let (w', f') = check_and_close w f in
      (w', record f' { as_object = set_object_path f'.as_object path })

  -- `std::fstream::open` on a stream: it fails where the stream is open, and leaves it where it is.
  unfoldable pub open_fstream : World → Option Bytes → Bytes → OpenMode → World × Option Bytes
  open_fstream w none real mode =
      let (w', ok) = open_stream w real mode in (w', if ok then some real else none)
  open_fstream w (some at) real mode = (w, some at)

  -- `openInit` behind its closing of the stream
  unfoldable pub open_closed : World → File → OpenMode → World × File
  unfolding get_absolute_path open_fstream
  open_closed w f mode =
      let (w', o', real) = get_absolute_path os w f.as_object in
      let (w'', stream) = open_fstream w' f.stream real mode in
      (w'', record { as_object = o'; stream = stream })

  unfoldable pub open_init : World → File → OpenMode → World × File
  unfolding analyzed check_and_close open_closed
  open_init w f mode =
      let (w', f') = check_and_close w f in
      if is_empty f.as_object.as_path.path
      then (w, record f { as_object = analyzed f.as_object })
      else open_closed w' f' mode

  unfoldable pub open_read : World → File → Bool → World × File
  unfolding open_init read_mode
  open_read w f text = open_init w f (read_mode text)

  unfoldable pub open_write : World → File → Bool → World × File
  unfolding open_init write_mode
  open_write w f text = open_init w f (write_mode text)

  unfoldable pub open_append : World → File → Bool → World × File
  unfolding open_init append_mode
  open_append w f text = open_init w f (append_mode text)

  unfoldable pub open_read_write : World → File → Bool → World × File
  unfolding open_init read_write_mode
  open_read_write w f text = open_init w f (read_write_mode text)

  -- `open` with a file name
  unfoldable pub open_at : World → File → Bytes → OpenMode → World × File
  unfolding set_file_path open_init
  open_at w f filename mode = let (w', f') = set_file_path w f filename in open_init w' f' mode

  -- An operation of `FsObject` on a file that exists, with its stream closed before.
  unfoldable pub on_closed :
      (World → FsObject → Option (World × FsObject × Bool))
      → World
      → File
      → Option (World × File × Bool)
  unfolding is_exist check_and_close
  on_closed operate w f =
      let (o', there) = is_exist os w f.as_object in
      let (w', f') = check_and_close w (record f { as_object = o' }) in
      let done = operate w' f'.as_object in
      if not there then some (w, record f { as_object = o' }, false) else elim done [
        | none ↦ none
        | some (w'', o'', ok) ↦ some (w'', record f' { as_object = o'' }, ok)
      ]

  unfoldable pub move_file : ShellOs World → ℕ → World → File → Bytes → Option (World × File × Bool)
  unfolding on_closed move
  move_file sh fuel w f destination = on_closed (λ v o. move os sh fuel v o destination) w f

  unfoldable pub remove_closed : ShellOs World → ℕ → World → File → Option (World × File × Bool)
  unfolding on_closed remove
  remove_closed sh fuel w f = on_closed (λ v o. remove os sh fuel v o) w f
