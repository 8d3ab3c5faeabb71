-- ===== src/Ftp/Tests.antt =====
-- The FTP client of src/gufo/blob/sync/ftp.py and its parsers on concrete replies.
mod Sessions
mod Connections
use gufo_blob.Base.{
  ℕ, ◌≤◌, ◌+◌, ◌*◌, map, Bool, true, false, List, [], ◌∷◌, ◌++◌, Option, none, some, length, take,
  drop, text_eq, ◌≡◌, refl, arith, Text, Bytes, All, codes, inl, inr,
}
use gufo_blob.Base.Int.{ℤ, pos, ◌≤ℤ◌}
use gufo_blob.Base.Result.{ok, err, blob_error, timed_out}
use gufo_blob.Utils.{bytes_to_int, bytes_to_int_range, int_of, scan_digits, count_digits, all_space}
use gufo_blob.Utils.Decimal.{decimal, emit}
use gufo_blob.Ftp.Common.{iter_parent_dirs}
use gufo_blob.Ftp.Common.Methods.{join, split, strip, last_or}
use gufo_blob.Ftp.Common.Utf8.{encode, encode_char, decode, decode-encode}
use gufo_blob.Ftp.Common.Pasv.{parse_pasv}
use gufo_blob.Ftp.Common.Pasv.Laws.{dotted, parse_pasv-octets, parse_pasv_sound}
use gufo_blob.Ftp.Common.Parents.{IsParent, IsNested, count_slashes, iter_parent_dirs_lem}
use gufo_blob.Ftp.Wire.{
  Recv, Stream, chunk, partition, read_line, read_more, read_response, rounds, supply, is_multi,
  is_last_line,
}
use gufo_blob.Ftp.Wire.Lines.{Holds, flat}
use gufo_blob.Ftp.Wire.Rounds.{read_more_enough}
use gufo_blob.Ftp.Wire.Replies.{crlf, render, IsLine, IsReply, read_response-render}

iter_parent_dirs_lem_example :
    All (IsParent (strip b'/' (codes "/a/b/c"))) (iter_parent_dirs (codes "/a/b/c"))
    × IsNested (iter_parent_dirs (codes "/a/b/c"))
    × (length (iter_parent_dirs (codes "/a/b/c")) ≡ count_slashes (strip b'/' (codes "/a/b/c")))
iter_parent_dirs_lem_example = iter_parent_dirs_lem (codes "/a/b/c")

abbrev address_octets : List ℕ
address_octets = 127 ∷ 0 ∷ 0 ∷ 1 ∷ 200 ∷ 10 ∷ []

octets_small : All (λ n. n ≤ 255) address_octets
octets_small =
    (omega arith, (omega arith, (omega arith, (omega arith, (omega arith, (omega arith, tt))))))

abbrev pasv_line : Bytes
pasv_line =
    codes "227 Entering Passive Mode "
    ++ b'(' ∷ (join b',' (map decimal address_octets) ++ b')' ∷ [])

parse_pasv-octets_example : parse_pasv pasv_line ≡ ok (dotted (127 ∷ 0 ∷ 0 ∷ 1 ∷ []), pos 51210)
parse_pasv-octets_example =
    parse_pasv-octets (codes "227 Entering Passive Mode ") [] 127 0 0 1 200 10 (ground arith)
      octets_small

pasv_line_lem : parse_pasv pasv_line ≡ ok (dotted (127 ∷ 0 ∷ 0 ∷ 1 ∷ []), pos 51210)
pasv_line_lem =
    parse_pasv-octets (codes "227 Entering Passive Mode ") [] 127 0 0 1 200 10 (ground arith)
      octets_small

parse_pasv_sound_example :
    (h1 : ℕ) × (h2 : ℕ) × (h3 : ℕ) × (h4 : ℕ) × (p1 : ℕ) × (p2 : ℕ) × All
      (λ n. n ≤ 255)
      (h1 ∷ h2 ∷ h3 ∷ h4 ∷ p1 ∷ p2 ∷ [])
    × (dotted (127 ∷ 0 ∷ 0 ∷ 1 ∷ []) ≡ dotted (h1 ∷ h2 ∷ h3 ∷ h4 ∷ []))
    × (pos 51210 ≡ pos (p1 * 256 + p2))
    × (pos 51210 ≤ℤ pos 65535)
parse_pasv_sound_example = parse_pasv_sound pasv_line pasv_line_lem

-- A line that arrives in two pieces, its CRLF cut through.
abbrev cut : Stream
cut = record {
  buffer = codes "22";
  script = chunk (codes "0 x" ++ 13 ∷ []) ∷ chunk (10 ∷ codes "rest") ∷ [];
}

read_more_enough_example : read_more 30 (codes "220-a") cut ≡ read_more 40 (codes "220-a") cut
unfolding supply
read_more_enough_example = read_more_enough 30 40 (codes "220-a") cut (omega arith) (omega arith)

abbrev greeting : Stream
greeting = record {
  buffer = [];
  script = chunk (render (codes "220-a" ∷ codes "b" ∷ codes "220 c" ∷ []) ++ codes "next") ∷ [];
}

read_response-render_example :
    (t' : Stream) × (read_response greeting
      ≡ (ok (pos 220, codes "220-a" ∷ codes "b" ∷ codes "220 c" ∷ []), t'))
    × Holds t' (codes "next") []
unfolding partition is_multi is_last_line text_eq bytes_to_int_range bytes_to_int int_of scan_digits
    render
read_response-render_example =
    read_response-render (codes "220-a") (codes "next") (codes "b" ∷ codes "220 c" ∷ []) (pos 220)
      [] greeting (omega arith) refl (refl, (refl, (refl, tt))) (inr (refl, (refl, refl)))
      (
        (render (codes "220-a" ∷ codes "b" ∷ codes "220 c" ∷ []) ++ codes "next") ∷ [],
        refl,
        refl,
        (cc, tt),
      )
