-- ===== src/Util/Decode.antt =====
-- pkg/util/decode.go. The decoders of `encoding/base64` and `compress/gzip` are parameters.
use k3os.Base.{Option, none, some, [], ◌++◌, ◌||◌, if◌then◌else◌}
use k3os.Base.Text.{Text, text, ◌=ᵗ◌}
use k3os.Os.Call.{failed, Result, ok, err}

-- `none` is an error of the decoder.
pub record Codec : Type 0 where
  pub base64 : Text → Option Text
  pub gunzip : Text → Option Text

abbrev decoded : Text → Option Text → Result Text
decoded message none = err (failed message)
decoded message (some t) = ok t

abbrev then_decode : Result Text → (Text → Result Text) → Result Text
then_decode (ok t) f = f t
then_decode (err e) f = err e

module _ (codec : Codec) where
  -- `DecodeBase64Content`
  unfoldable pub decode_base64_content : Text → Result Text
  decode_base64_content content = decoded (text "unable to decode base64") (codec.base64 content)

  -- `DecodeGzipContent` and `DecompressGzip`
  unfoldable pub decode_gzip_content : Text → Result Text
  decode_gzip_content content = decoded (text "unable to decode gzip") (codec.gunzip content)

  -- `DecodeContent`
  unfoldable pub decode_content : Text → Text → Result Text
  unfolding ◌=ᵗ◌ decode_base64_content decode_gzip_content
  decode_content content encoding =
      if encoding =ᵗ []
      then ok content
      else if encoding =ᵗ text "b64" || encoding =ᵗ text "base64"
      then decode_base64_content content
      else if encoding =ᵗ text "gz" || encoding =ᵗ text "gzip"
      then decode_gzip_content content
      else if encoding =ᵗ text "gz+base64"
          || encoding =ᵗ text "gzip+base64"
          || encoding =ᵗ text "gz+b64"
          || encoding =ᵗ text "gzip+b64"
      then then_decode (decode_base64_content content) decode_gzip_content
      else err (failed (text "unsupported encoding " ++ encoding))
