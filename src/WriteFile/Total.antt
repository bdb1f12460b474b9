-- ===== src/WriteFile/Total.antt =====
-- pkg/writefile/writefile.go: the errors of single files, and the result of `WriteFiles`.
use k3os.Base.{List}
use k3os.Base.Text.{Text}
use k3os.Os.Call.{Result, ok, err}
use k3os.Os.Total.{Total, total_rules}
use k3os.Util.Decode.{Codec}
use k3os.Config.{File}
use k3os.WriteFile.{write_content, write_files}

write_content-Total : (codec : Codec) (f : File) (r : Result Text) → Total (write_content codec f r)
write_content-Total codec f (err e) = search total_rules
write_content-Total codec f (ok content) = search total_rules depth 9

-- Whatever the system answers, and whatever the decoders of the contents say, `WriteFiles` comes to
-- the end of its files without an error.
pub write_files-Total : (codec : Codec) (files : List File) → Total (write_files codec files)
unfolding write_files
write_files-Total codec files = search (total_rules, write_content-Total) depth 9
