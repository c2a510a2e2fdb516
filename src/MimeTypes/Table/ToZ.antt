-- ===== src/MimeTypes/Table/ToZ.antt =====
-- libs/static_files/src/static_files_types.inl: the rows from x32 to zmm.
use Prim.Native.String.{String}
use mathlib.Core.List.{List, [], ◌∷◌}

unfoldable pub types_to_z : List (String × String)
types_to_z =
    ("x32", "application/x-authorware-bin")
    ∷ ("x3d", "model/x3d+xml")
    ∷ ("x3db", "model/x3d+binary")
    ∷ ("x3dv", "model/x3d+vrml")
    ∷ ("x3dz", "model/x3d+xml")
    ∷ ("xaml", "application/xaml+xml")
    ∷ ("xap", "application/x-silverlight-app")
    ∷ ("xar", "application/vnd.xara")
    ∷ ("xbap", "application/x-ms-xbap")
    ∷ ("xbd", "application/vnd.fujixerox.docuworks.binder")
    ∷ ("xbm", "image/x-xbitmap")
    ∷ ("xdf", "application/xcap-diff+xml")
    ∷ ("xdm", "application/vnd.syncml.dm+xml")
    ∷ ("xdp", "application/vnd.adobe.xdp+xml")
    ∷ ("xdw", "application/vnd.fujixerox.docuworks")
    ∷ ("xenc", "application/xenc+xml")
    ∷ ("xer", "application/patch-ops-error+xml")
    ∷ ("xfdf", "application/vnd.adobe.xfdf")
    ∷ ("xfdl", "application/vnd.xfdl")
    ∷ ("xht", "application/xhtml+xml")
    ∷ ("xif", "image/vnd.xiff")
    ∷ ("xla", "application/vnd.ms-excel")
    ∷ ("xlam", "application/vnd.ms-excel.addin.macroenabled.12")
    ∷ ("xlc", "application/vnd.ms-excel")
    ∷ ("xlf", "application/x-xliff+xml")
    ∷ ("xlm", "application/vnd.ms-excel")
    ∷ ("xls", "application/vnd.ms-excel")
    ∷ ("xlsb", "application/vnd.ms-excel.sheet.binary.macroenabled.12")
    ∷ ("xlsm", "application/vnd.ms-excel.sheet.macroenabled.12")
    ∷ ("xlsx", "application/vnd.openxmlformats-officedocument.spreadsheetml.sheet")
    ∷ ("xlt", "application/vnd.ms-excel")
    ∷ ("xltm", "application/vnd.ms-excel.template.macroenabled.12")
    ∷ ("xltx", "application/vnd.openxmlformats-officedocument.spreadsheetml.template")
    ∷ ("xlw", "application/vnd.ms-excel")
    ∷ ("xm\0", "audio/xm")
    ∷ ("xml", "application/xml")
    ∷ ("xo\0", "application/vnd.olpc-sugar")
    ∷ ("xop", "application/xop+xml")
    ∷ ("xpi", "application/x-xpinstall")
    ∷ ("xpl", "application/xproc+xml")
    ∷ ("xpm", "image/x-xpixmap")
    ∷ ("xpr", "application/vnd.is-xpr")
    ∷ ("xps", "application/vnd.ms-xpsdocument")
    ∷ ("xpw", "application/vnd.intercon.formnet")
    ∷ ("xpx", "application/vnd.intercon.formnet")
    ∷ ("xsd", "application/xml")
    ∷ ("xsl", "application/xml")
    ∷ ("xslt", "application/xslt+xml")
    ∷ ("xsm", "application/vnd.syncml+xml")
    ∷ ("xspf", "application/xspf+xml")
    ∷ ("xul", "application/vnd.mozilla.xul+xml")
    ∷ ("xvm", "application/xv+xml")
    ∷ ("xvml", "application/xv+xml")
    ∷ ("xwd", "image/x-xwindowdump")
    ∷ ("xyz", "chemical/x-xyz")
    ∷ ("xz\0", "application/x-xz")
    ∷ ("yaml", "text/yaml")
    ∷ ("yang", "application/yang")
    ∷ ("yin", "application/yin+xml")
    ∷ ("yml", "text/yaml")
    ∷ ("ymp", "text/x-suse-ymp")
    ∷ ("z1\0", "application/x-zmachine")
    ∷ ("z2\0", "application/x-zmachine")
    ∷ ("z3\0", "application/x-zmachine")
    ∷ ("z4\0", "application/x-zmachine")
    ∷ ("z5\0", "application/x-zmachine")
    ∷ ("z6\0", "application/x-zmachine")
    ∷ ("z7\0", "application/x-zmachine")
    ∷ ("z8\0", "application/x-zmachine")
    ∷ ("zaz", "application/vnd.zzazz.deck+xml")
    ∷ ("zip", "application/zip")
    ∷ ("zir", "application/vnd.zul")
    ∷ ("zirz", "application/vnd.zul")
    ∷ ("zmm", "application/vnd.handheld-entertainment+xml")
    ∷ []
