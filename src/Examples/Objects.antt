-- ===== src/Examples/Objects.antt =====
-- A pair and its two members as JSON, and fields with a string.
use object_introspection.Prelude.{◌≡◌, refl, [], ◌∷◌, ◌++◌, some, ok, true, false, codes, arith}
use object_introspection.Results.{Element}
use object_introspection.Results.Json.{print, print_fields, print_string_field, field_end, quote}
use object_introspection.Results.Json.Forests.{
  Forest, nil, cons, items, objects, in_list, print-objects,
}
use object_introspection.Results.Json.Strings.{
  read_string_field, read_string_field-print_string_field, print_string_field_ends_early,
}
use object_introspection.Results.Sized.{depth_of}
use object_introspection.Examples.Elements.{element}

abbrev pair : Forest Element
pair =
    cons (element "a" ("a" ∷ []) 4)
      (cons (element "b" ("a" ∷ "b" ∷ []) 24) nil (cons (element "c" ("a" ∷ "c" ∷ []) 10) nil nil))
      nil

print-objects_example :
    print true (print_fields true) depth_of 14 (items pair)
    ≡ ok (in_list true (print_fields true) 1 (objects true (print_fields true) 1 true pair), [])
print-objects_example =
    print-objects true (print_fields true) depth_of 14 (element "a" ("a" ∷ []) 4)
      (cons (element "b" ("a" ∷ "b" ∷ []) 24) nil (cons (element "c" ("a" ∷ "c" ∷ []) 10) nil nil))
      nil (refl, omega arith, (refl, omega arith, tt, (refl, omega arith, tt, tt)), tt)
      (omega arith)

read_string_field-print_string_field_example :
    read_string_field (print_string_field true "name" "x y" [])
    ≡ some (codes "name", codes "x y", field_end true [])
read_string_field-print_string_field_example =
    read_string_field-print_string_field true "name" "x y" [] (refl, (refl, (refl, (refl, tt))))
      (refl, (refl, (refl, tt)))

-- The value `a"b`.
print_string_field_ends_early_example :
    read_string_field (print_string_field false "data" "a\"b" [])
    ≡ some (codes "data", codes "a", codes "b" ++ quote ∷ field_end false [])
print_string_field_ends_early_example =
    print_string_field_ends_early false "data" "a\"b" (codes "a") (codes "b") []
      (refl, (refl, (refl, (refl, tt)))) (refl, tt) refl
