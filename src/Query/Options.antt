-- ===== src/Query/Options.antt =====
-- SetupAuthorization: the query options of a request.
use sailfish.Base.{Dict, String, if◌then◌else◌, lookup, none, not, pos, some, str_eq, ◌&&◌, ◌||◌}
use sailfish.Query.Text.{atoi}
use sailfish.Query.Page.{Options}

-- qm.Get(name): the first value, or the empty text.
abbrev pub first_value : String → Dict String → String
first_value name query = elim (lookup name query) [ none ↦ "" | some v ↦ v ]

-- The options of a GET request without $select. `query` is the first value of each parameter of the
-- request, or of the resource's default filter if the request has none. $top is 50 unless it is
-- given, and a number that cannot be read switches its option off.
unfoldable pub setup_options : Dict String → String → Options
unfolding lookup atoi
setup_options query path =
    let top = first_value "$top" query in
    let skip = first_value "$skip" query in
    let filter = first_value "$filter" query in
    record {
      do_filter = not (str_eq filter "");
      filter = filter;
      do_skip = not (str_eq skip "") && (atoi skip).1;
      skip = if str_eq skip "" then pos 0 else (atoi skip).0;
      do_top = str_eq top "" || (atoi top).1;
      top = if str_eq top "" then pos 50 else (atoi top).0;
      path = path;
      encode = "";
    }
