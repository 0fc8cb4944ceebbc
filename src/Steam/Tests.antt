-- ===== src/Steam/Tests.antt =====
-- Runs of the Steam readers on concrete inputs, and the theorems at inputs that meet their
-- hypotheses.
use yafsml.Prelude.{
  none, ◌≡◌, refl, Bool, false, Option, some, Bytes, codes, done, arith, ◌<◌, ◌^◌, length,
}
use yafsml.Steam.Vdf.Conditional.Total.{evaluate_conditional_total}
use yafsml.Steam.Vdf.Reader.{Parser, eat_cpp_comment, comment_loop}
use yafsml.Steam.Vdf.Load.Total.{vdf_parse_buffer_total}
use yafsml.Steam.Vdf.Render.{render_file, render_objects, escape, AreWritable, IsGap}
use yafsml.Steam.Vdf.Render.File.{vdf_parse_buffer-render_file}
use yafsml.Steam.Vdf.Chars.{ascii_equal, is_space}
use yafsml.Steam.Vdf.Tree.Number.{stored_value}
use yafsml.Steam.Vdf.Conditional.{evaluate_conditional}
use yafsml.Steam.Vdf.Tree.{Object, object, text, array, nil, cons, Objects}
use yafsml.Steam.Vdf.Load.{vdf_parse_buffer, include_name}

abbrev leaf : Bytes → Bytes → Object
leaf k v = object (some k) (text v)

abbrev file : Bytes
file =
    codes
      "\"apps\" // list\n{ \"1\"  \"0\" [$WIN32]\n  key = +07 a x [!$WINDOWS] \"b\" { \"p\" \"C:\\\\x\" } }\n"

parse_runs :
    vdf_parse_buffer (some file)
    ≡ done (
        some (
          object (some (codes "apps")) (
            array (
              cons (leaf (codes "1") (codes "0")) (
                cons (leaf (codes "key") (codes "7")) (
                  cons
                    (object
                      (some (codes "b"))
                      (array (cons (leaf (codes "p") (codes "C:\\x")) nil)))
                    nil))))))
unfolding vdf_parse_buffer
parse_runs = refl

abbrev some_children : Objects
some_children =
    cons (leaf (codes "path") (codes "C:\\x\"\n"))
      (cons (object (some (codes "apps")) (array (cons (leaf (codes "7") (codes "12")) nil))) nil)

children_written : AreWritable 1 some_children
unfolding AreWritable stored_value
children_written = ground arith

children_short : length (render_file (codes " \t") (codes "root") some_children) < 2 ^ 31
unfolding render_objects escape
children_short = omega arith

blanks : IsGap (codes " \t")
unfolding is_space
blanks = ground arith

plain_key : ascii_equal (codes "root") include_name ≡ false
unfolding ascii_equal
plain_key = refl

vdf_parse_buffer-render_file_example :
    vdf_parse_buffer (some (render_file (codes " \t") (codes "root") some_children))
    ≡ done (some (object (some (codes "root")) (array some_children)))
vdf_parse_buffer-render_file_example =
    vdf_parse_buffer-render_file (codes " \t") (codes "root") some_children blanks (ground arith)
      plain_key children_written children_short

vdf_parse_buffer_total_example :
    ((r : Option Object) × (vdf_parse_buffer (some file) ≡ done r))
    × ((p : Parser) → eat_cpp_comment (comment_loop (length p.rest) p) ≡ none)
vdf_parse_buffer_total_example = vdf_parse_buffer_total (some file)

evaluate_conditional_total_example :
    (b : Bool) × (evaluate_conditional (codes "[!($A||$WIN32)]") ≡ done b)
evaluate_conditional_total_example = evaluate_conditional_total (codes "[!($A||$WIN32)]")
