-- ===== src/Exported/Laws/Transfers.antt =====
-- The exported functions with loops close what they opened.
use ioprocess.Base.{
  ℕ, zero, suc, ℤ, Bytes, Bool, true, false, Option, none, some, List, [], ◌∷◌, refl, is_zero, drop,
}
use ioprocess.Dom.{Json, array, nil}
use ioprocess.Sys.{
  Os, Act, GError, write, fsync, general_error, posix_memalign, fstat, fstatvfs, malloc, glob,
}
use ioprocess.Args.{Cell}
use ioprocess.Exported.Common.{reply, nonzero}
use ioprocess.Exported.Listing.{
  append_or_fault, list_entry, list_entries, glob_entries, glob_found, glob_switch, exp_glob,
  exp_listdir,
}
use ioprocess.Exported.Write.{
  unless_error, write_loop, align_buffer, write_decoded, write_opened, writefile_args,
  exp_writefile,
}
use ioprocess.Exported.Read.{
  Progress, broken, read_loop, read_reply, errno_reply, read_aligned, read_opened, exp_readfile,
  is_below,
}
use ioprocess.Exported.Laws.Handles.{
  Keeps, Closes, file, bind-Keeps, bind-Closes, pure-Keeps, undefined-Keeps, trace_of-Keeps,
  get_args-Keeps, c_text_at-Keeps, int_at-Keeps, sys-Keeps, sys_quiet-Keeps, sys_read-Keeps,
  close-Closes, closedir-Closes, open-Keeps, opendir-Keeps, if-Keeps, option-Keeps, hung-Keeps,
}
use ioprocess.Exported.Laws.Balance.{throw_errno-Keeps, errno_error-Keeps}

append_or_fault-Keeps : {may : Bool} (o : Option Json) → Keeps may (append_or_fault o)
append_or_fault-Keeps none = undefined-Keeps
append_or_fault-Keeps (some node) = pure-Keeps node

list_entry-Keeps :
    {may : Bool} (fname : Bytes) (result : Json) → Keeps may (list_entry fname result)
unfolding list_entry
list_entry-Keeps fname result = if-Keeps _ (pure-Keeps result) (append_or_fault-Keeps _)

list_entries-Keeps :
    {may : Bool} (names : List Bytes) (result : Json) → Keeps may (list_entries names result)
unfolding list_entries
list_entries-Keeps [] result = pure-Keeps result
list_entries-Keeps (fname ∷ more) result =
    bind-Keeps (list_entry-Keeps fname result) (list_entries-Keeps more)

glob_entries-Keeps :
    {may : Bool} (paths : List Bytes) (result : Json) → Keeps may (glob_entries paths result)
unfolding glob_entries
glob_entries-Keeps [] result = pure-Keeps result
glob_entries-Keeps (path ∷ more) result =
    bind-Keeps (append_or_fault-Keeps _) (glob_entries-Keeps more)

unless_error-Keeps :
    {may : Bool} (o : Option GError) {next : Act (Option GError)}
    → Keeps may next
    → Keeps may (unless_error o next)
unless_error-Keeps none p = p
unless_error-Keeps (some e) p = pure-Keeps (some e)

module _ (os : Os) where
  pub exp_listdir-Keeps : (args : Option Json) → Keeps true (exp_listdir os args)
  unfolding exp_listdir
  exp_listdir-Keeps args = bind-Keeps (get_args-Keeps args _) λ cells.
      bind-Keeps (c_text_at-Keeps cells 0) λ path.
        opendir-Keeps os _ (throw_errno-Keeps os _) path λ dp. bind-Closes trace_of-Keeps λ t.
          bind-Closes (list_entries-Keeps (os.entries_of t dp) (array nil))
            λ result. closedir-Closes os dp _ λ r. pure-Keeps (reply result)

  write_loop-Keeps :
      {may : Bool} (fuel fd : ℕ) (rest : Bytes) → Keeps may (write_loop os fuel fd rest)
  unfolding write_loop
  write_loop-Keeps fuel fd [] = pure-Keeps none
  write_loop-Keeps zero fd (b ∷ bs) = hung-Keeps
  write_loop-Keeps (suc fuel) fd (b ∷ bs) = bind-Keeps (sys-Keeps os (write fd (b ∷ bs)) refl) (
      option-Keeps _ (errno_error-Keeps os general_error)
        (λ n. write_loop-Keeps fuel fd (drop n (b ∷ bs))))

  align_buffer-Keeps :
      {may : Bool} (buffered : Bool) (len : ℕ) → Keeps may (align_buffer os buffered len)
  unfolding align_buffer
  align_buffer-Keeps true len = pure-Keeps none
  align_buffer-Keeps false len =
      bind-Keeps (sys_quiet-Keeps os (posix_memalign _ len) refl)
        (option-Keeps _ (pure-Keeps none) (λ e. errno_error-Keeps os general_error))

  write_decoded-Keeps :
      {may : Bool} (fuel fd : ℕ) (buffered : Bool) (bytes : Bytes)
      → Keeps may (write_decoded os fuel fd buffered bytes)
  unfolding write_decoded
  write_decoded-Keeps fuel fd buffered bytes = bind-Keeps (align_buffer-Keeps buffered _) λ aligned.
      unless_error-Keeps aligned (
        bind-Keeps (write_loop-Keeps fuel fd bytes) λ written. unless_error-Keeps written (
          bind-Keeps (sys-Keeps os (fsync fd) refl)
            λ rv. if-Keeps (nonzero rv) (errno_error-Keeps os general_error) (pure-Keeps none)))

  write_opened-Closes :
      (fuel fd : ℕ) (cells : List Cell) (direct : ℤ)
      → Closes (file fd) true (write_opened os fuel cells direct (some fd))
  unfolding write_opened
  write_opened-Closes fuel fd cells direct = bind-Closes (c_text_at-Keeps cells 1) λ text.
      bind-Closes (write_decoded-Keeps fuel fd (is_zero direct) (os.base64_decode text))
        λ err. close-Closes os fd _ λ r. pure-Keeps _

  write_opened-Keeps :
      (fuel : ℕ) (cells : List Cell) (direct : ℤ)
      → Keeps true (write_opened os fuel cells direct none)
  unfolding write_opened
  write_opened-Keeps fuel cells direct = throw_errno-Keeps os _

  pub exp_writefile-Keeps :
      (fuel : ℕ) (args : Option Json) → Keeps true (exp_writefile os fuel args)
  unfolding exp_writefile
  exp_writefile-Keeps fuel args = bind-Keeps (get_args-Keeps args writefile_args) λ cells.
      bind-Keeps (int_at-Keeps cells 2) λ direct. bind-Keeps (c_text_at-Keeps cells 0) λ path.
        open-Keeps os (write_opened os fuel cells direct) (write_opened-Keeps fuel cells direct)
          path _ _ λ fd. write_opened-Closes fuel fd cells direct

  -- The branches of `exp_glob` make no call.
  pub exp_glob-Keeps : (args : Option Json) → Keeps true (exp_glob os args)
  unfolding exp_glob
  exp_glob-Keeps args = bind-Keeps (get_args-Keeps args _) λ cells.
      bind-Keeps (c_text_at-Keeps cells 0) λ pattern_text.
        bind-Keeps (sys_quiet-Keeps os (glob pattern_text) refl) (glob_switch-Keeps pattern_text)
    where
      found : (text : Bytes) → Keeps true (glob_found os text)
      found text = bind-Keeps trace_of-Keeps λ t.
          bind-Keeps (glob_entries-Keeps (os.paths_of t text) (array nil)) λ r. pure-Keeps (reply r)

      glob_switch-Keeps : (text : Bytes) (rv : Option ℕ) → Keeps true (glob_switch os text rv)
      glob_switch-Keeps text none = found text
      glob_switch-Keeps text (some zero) = found text
      glob_switch-Keeps text (some (suc zero)) = pure-Keeps _
      glob_switch-Keeps text (some (suc (suc zero))) = pure-Keeps _
      glob_switch-Keeps text (some (suc (suc (suc zero)))) = pure-Keeps _
      glob_switch-Keeps text (some (suc (suc (suc (suc n))))) = found text

  read_loop-Keeps :
      {may : Bool} (fuel fd buffsize : ℕ) (size : ℤ) (p : Progress)
      → Keeps may (read_loop os fuel fd buffsize size p)
  unfolding read_loop
  read_loop-Keeps zero fd buffsize size p =
      if-Keeps (is_below p.total size) hung-Keeps (pure-Keeps _)
  read_loop-Keeps (suc fuel) fd buffsize size p =
      if-Keeps (is_below p.total size)
        (bind-Keeps (sys_read-Keeps os fd buffsize) (
          option-Keeps _
            (bind-Keeps (errno_error-Keeps os general_error) λ e. pure-Keeps (broken e))
            λ chunk. if-Keeps _ (read_loop-Keeps fuel fd buffsize size _) undefined-Keeps))
        (pure-Keeps _)

  errno_reply-Keeps : {may : Bool} → Keeps may (errno_reply os)
  unfolding errno_reply
  errno_reply-Keeps = bind-Keeps (errno_error-Keeps os general_error) λ e. pure-Keeps _

  read_aligned-Keeps :
      {may : Bool} (fuel fd buffsize : ℕ) (size : ℤ)
      → Keeps may (read_aligned os fuel fd buffsize size)
  unfolding read_aligned
  read_aligned-Keeps fuel fd buffsize size =
      bind-Keeps (sys_quiet-Keeps os (posix_memalign _ buffsize) refl) (
        option-Keeps _
          (bind-Keeps (sys-Keeps os (malloc _) refl) (
            option-Keeps _ errno_reply-Keeps λ c.
              bind-Keeps (read_loop-Keeps fuel fd buffsize size _)
                λ out. pure-Keeps (read_reply os out)))
          (λ e. pure-Keeps _))

  read_opened-Keeps : {may : Bool} (fuel fd : ℕ) → Keeps may (read_opened os fuel fd)
  unfolding read_opened
  read_opened-Keeps fuel fd = bind-Keeps trace_of-Keeps λ t.
      bind-Keeps (sys-Keeps os (fstat fd) refl) (
        option-Keeps _ errno_reply-Keeps λ a. bind-Keeps trace_of-Keeps λ t'.
          bind-Keeps (sys-Keeps os (fstatvfs fd) refl)
            (option-Keeps _ errno_reply-Keeps λ b. read_aligned-Keeps fuel fd _ _))

  pub exp_readfile-Keeps : (fuel : ℕ) (args : Option Json) → Keeps true (exp_readfile os fuel args)
  unfolding exp_readfile
  exp_readfile-Keeps fuel args = bind-Keeps (get_args-Keeps args _) λ cells.
      bind-Keeps (int_at-Keeps cells 1) λ direct. bind-Keeps (c_text_at-Keeps cells 0) λ path.
        open-Keeps os _ (throw_errno-Keeps os _) path _ _
          λ fd. bind-Closes (read_opened-Keeps fuel fd) λ r. close-Closes os fd _ λ x. pure-Keeps r
